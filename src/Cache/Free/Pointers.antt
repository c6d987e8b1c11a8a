-- ===== src/Cache/Free/Pointers.antt =====
-- Which pointers `cache_free` hands to `free` for the values, and how often: src/cache.c. A value is
-- an address.
use comfirm_dmarc_report_ser.Common.{
  ℕ, suc, ◌+◌, ◌≤◌, ◌<◌, ◌≡◌, ◌≢◌, refl, sym, ap, ◌∙◌, Bool, Bool-cases, inl, inr, true, false,
  ◌&&◌, List, [], ◌∷◌, Option, none, some, arith, ◌==◌, if◌then◌else◌, str_eq, str_eq_iff,
}
use comfirm_dmarc_report_ser.Cache.{Node, node, Cache, find}
use comfirm_dmarc_report_ser.Cache.Free.{value, Block, free}
use comfirm_dmarc_report_ser.Cache.Free.Once.{same_part, times, owns}
use comfirm_dmarc_report_ser.Cache.Free.Nested.{Nested, free_lem}

abbrev pub value_of : Option (Node ℕ) → Option ℕ
value_of none = none
value_of (some (node v s)) = v

-- The pointer that the node of a name holds, by the indices that lead to it.
abbrev pub value_at : Cache ℕ → List ℕ → Option ℕ
value_at c at = value_of (find (some (node none c.nodes)) at)

abbrev is_pointer : ℕ → Option ℕ → Bool
is_pointer p none = false
is_pointer p (some q) = p == q

-- How often a pointer is freed as a value.
abbrev pub frees : Cache ℕ → ℕ → List Block → ℕ
frees c p [] = 0
frees c p (b ∷ bs) =
    let rest = frees c p bs in
    if same_part value b.part && is_pointer p (value_at c b.at) then suc rest else rest

pointer_iff : (p : ℕ) (o : Option ℕ) → is_pointer p o ≡ true → o ≡ some p
pointer_iff p none h = cc h
pointer_iff p (some q) h = ap some (ground (arith, h))

pointer_self : (p : ℕ) (o : Option ℕ) → o ≡ some p → is_pointer p o ≡ true
pointer_self p o e = rw e (ground arith)

module _ (c : Cache ℕ) (p : ℕ) (at : List ℕ) (here : value_at c at ≡ some p) where
  held : (at' : List ℕ) → str_eq at at' ≡ true → is_pointer p (value_at c at') ≡ true
  held at' e =
      pointer_self p (value_at c at') (ap (value_at c) (sym ((str_eq_iff at at').0 e)) ∙ here)

  only_here :
      ((at' : List ℕ) → value_at c at' ≡ some p → at' ≡ at)
      → (at' : List ℕ) → is_pointer p (value_at c at') ≡ str_eq at at'
  only_here alone at' = elim (Bool-cases (str_eq at at')) [
    | inl same ↦ held at' same ∙ sym same
    | inr other ↦ elim (Bool-cases (is_pointer p (value_at c at'))) [
      | inl points ↦
          points
          ∙ sym ((str_eq_iff at at').1 (sym (alone at' (pointer_iff p (value_at c at') points))))
      | inr not_there ↦ not_there ∙ sym other
    ]
  ]

  frees-times :
      ((at' : List ℕ) → value_at c at' ≡ some p → at' ≡ at)
      → (bs : List Block) → frees c p bs ≡ times value at bs
  frees-times alone [] = refl
  frees-times alone (b ∷ bs) = simp (only_here alone b.at, frees-times alone bs) refl

  owned : owns value (find (some (node none c.nodes)) at) ≡ 1
  owned = by_node (find (some (node none c.nodes)) at) here
    where
      by_node : (o : Option (Node ℕ)) → value_of o ≡ some p → owns value o ≡ 1
      by_node none e = cc e
      by_node (some (node none s)) e = cc e
      by_node (some (node (some v) s)) e = refl

  -- A pointer that is stored under one name alone is freed once by `cache_free`, and no part of its
  -- node is used after the node was freed.
  pub freed_once :
      ((at' : List ℕ) → value_at c at' ≡ some p → at' ≡ at)
      → (frees c p (free c) ≡ 1) × Nested (free c)
  freed_once alone =
      let (once, nested) = free_lem c value at in
      (frees-times alone (free c) ∙ once ∙ owned, nested)

both-times :
    (c : Cache ℕ) (p : ℕ) (at at' : List ℕ)
    → value_at c at ≡ some p
    → value_at c at' ≡ some p
    → at ≢ at'
    → (bs : List Block) → times value at bs + times value at' bs ≤ frees c p bs
both-times c p at at' here there apart [] = omega arith
both-times c p at at' here there apart (b ∷ bs) =
    let rest = both-times c p at at' here there apart bs in
    elim (Bool-cases (str_eq at b.at)) [
      | inl e ↦
          let e' : str_eq at' b.at ≡ false = elim (Bool-cases (str_eq at' b.at)) [
            | inl same ↦
                absurd (apart ((str_eq_iff at b.at).0 e ∙ sym ((str_eq_iff at' b.at).0 same)))
            | inr other ↦ other
          ] in
          simp (e, e', held c p at here b.at e) (ground (arith, rest))
      | inr n ↦ elim (Bool-cases (str_eq at' b.at)) [
        | inl e ↦ simp (n, e, held c p at' there b.at e) (ground (arith, rest))
        | inr n' ↦ simp (n, n') (ground (arith, rest))
      ]
    ]

-- A pointer that is stored under two names is freed twice or more by `cache_free`.
pub shared_freed_twice :
    (c : Cache ℕ) (p : ℕ) (at at' : List ℕ)
    → value_at c at ≡ some p
    → value_at c at' ≡ some p
    → at ≢ at'
    → 1 < frees c p (free c)
shared_freed_twice c p at at' here there apart = omega (
  arith,
  both-times c p at at' here there apart (free c),
  (free_lem c value at).0,
  (free_lem c value at').0,
  owned c p at here,
  owned c p at' there,
)

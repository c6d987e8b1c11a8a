-- ===== src/Cache/Lookup.antt =====
-- Adding to the cache and looking up.
use comfirm_dmarc_report_ser.Common.{
  ℕ, zero, suc, ◌+◌, ◌<◌, ◌≡◌, ◌≢◌, refl, sym, ap, ◌∙◌, List, [], ◌∷◌, Option, none, some, arith,
  length, Bool-cases, ◌==◌, true, ap₂, Bytes, inl, inr,
}
use comfirm_dmarc_report_ser.Common.Outcome.{ok}
use comfirm_dmarc_report_ser.Cache.{
  Node, node, Cache, nulls, slot, set_slot, create_node, value, children, index, onto, path,
  or_create, child_or_new, save, follow, find, held,
}
use comfirm_dmarc_report_ser.Cache.Arrays.{
  width, IsNode, AllNodes, slot-set_slot, slot-set_slot_ne, child_or_new-IsNode, index-lt, AllBelow,
}

-- The arrays of a cache are whole.
abbrev pub IsCache {ℓ} : {V : Type ℓ} → Cache V → Type 0
IsCache c = (width c.nodes ≡ 256) × AllNodes c.nodes

module _ {ℓ} {V : Type ℓ} where
  pub slot-nulls : (n i : ℕ) → slot (nulls {V = V} n) i ≡ none
  slot-nulls zero i = refl
  slot-nulls (suc n) zero = refl
  slot-nulls (suc n) (suc i) = slot-nulls n i

  pub find-none : (is : List ℕ) → find {V = V} none is ≡ none
  unfolding find
  find-none [] = refl
  find-none (i ∷ is) = refl

  -- A new node holds nothing, and nothing below it does.
  held-create : (is : List ℕ) → held (find {V = V} (some create_node) is) ≡ none
  unfolding find create_node
  held-create [] = refl
  held-create (i ∷ is) = rw (slot-nulls 256 i) (ap held (find-none is))

  held-or_create :
      (o : Option (Node V)) (is : List ℕ) → held (find (some (or_create o)) is) ≡ held (find o is)
  held-or_create none is = held-create is ∙ sym (ap held (find-none is))
  held-or_create (some n) is = refl

  -- What is saved is found at its place.
  pub find-save :
      (n : Node V) (is : List ℕ) (v : Option V)
      → IsNode n
      → AllBelow is
      → (m : Node V) × (find (some (save n is v)) is ≡ some m) × (value m ≡ v)
  unfolding find save
  find-save (node u s) [] v h b = (node v s, refl, refl)
  find-save (node u s) (i ∷ is) v h b =
      let (m, e, k) = find-save (child_or_new s i) is v (child_or_new-IsNode s i h.1) b.1 in
      (
        m,
        ap (λ (o : Option (Node V)). find o is)
              (slot-set_slot s i (save (child_or_new s i) is v) (rw h.0 b.0))
            ∙ e,
        k,
      )

  -- And it changes no other place.
  pub find-save_ne :
      (n : Node V) (is js : List ℕ) (v : Option V)
      → IsNode n
      → AllBelow is
      → is ≢ js
      → held (find (some (save n is v)) js) ≡ held (find (some n) js)
  unfolding find save child_or_new
  find-save_ne (node u s) [] [] v h b d = absurd (d refl)
  find-save_ne (node u s) [] (j ∷ js) v h b d = refl
  find-save_ne (node u s) (i ∷ is) [] v h b d = refl
  find-save_ne (node u s) (i ∷ is) (j ∷ js) v h b d = elim (Bool-cases (i == j)) [
    | inl same ↦
        ap (λ (o : Option (Node V)). held (find o js))
          (ap (slot (set_slot s i saved)) (sym (equal same)) ∙ slot-set_slot s i saved (rw h.0 b.0))
        ∙ find-save_ne (child_or_new s i) is js v (child_or_new-IsNode s i h.1) b.1
            (λ e. d (ap₂ ◌∷◌ (equal same) e))
        ∙ held-or_create (slot s i) js
        ∙ ap (λ (k : ℕ). held (find (slot s k) js)) (equal same)
    | inr other ↦
        ap (λ (o : Option (Node V)). held (find o js))
          (slot-set_slot_ne s i j saved (λ e. ground (arith, e, other)))
  ]
    where
      saved : Node V
      saved = save (child_or_new s i) is v

      equal : (i == j) ≡ true → i ≡ j
      equal e = ground arith

  -- Where the tests for NULL find a node, the loop without them finds the same.
  pub follow-find :
      (o : Option (Node V)) (is : List ℕ) (m : Node V)
      → find o is ≡ some m
      → follow o is ≡ ok (some m)
  unfolding follow find
  follow-find none is m e = absurd (cc (sym (find-none is) ∙ e))
  follow-find (some n) [] m e = ap ok e
  follow-find (some n) (i ∷ is) m e = follow-find (slot (children n) i) is m e

-- The path of a name is not empty, and is made of indices.
onto-AllBelow : (cs : Bytes) (is : List ℕ) → AllBelow is → AllBelow (onto cs is)
onto-AllBelow [] is h = h
onto-AllBelow (c ∷ cs) is h = onto-AllBelow cs (index c ∷ is) (index-lt c, h)

length-onto : (cs : Bytes) (is : List ℕ) → length (onto cs is) ≡ length cs + length is
length-onto [] is = omega arith
length-onto (c ∷ cs) is = omega (arith, length-onto cs (index c ∷ is))

pub path-cons :
    (c : ℕ) (cs : Bytes) → (i : ℕ) × (is : List ℕ) × (path (c ∷ cs) ≡ i ∷ is) × AllBelow (i ∷ is)
path-cons c cs = some_index (path (c ∷ cs)) refl (onto-AllBelow cs (index c ∷ []) (index-lt c, tt))
  where
    some_index :
        (l : List ℕ)
        → path (c ∷ cs) ≡ l
        → AllBelow l
        → (i : ℕ) × (is : List ℕ) × (path (c ∷ cs) ≡ i ∷ is) × AllBelow (i ∷ is)
    some_index [] e h = absurd (omega (arith, length-onto cs (index c ∷ []), ap length e))
    some_index (i ∷ is) e h = (i, is, e, h)

-- ASCII text.
abbrev pub AllAscii : Bytes → Type 0
AllAscii [] = Unit
AllAscii (c ∷ cs) = (c < 128) × AllAscii cs

pub onto-inj :
    (a b : Bytes) (is js : List ℕ)
    → AllAscii a
    → AllAscii b
    → length is ≡ length js
    → onto a is ≡ onto b js
    → (a ≡ b) × (is ≡ js)
unfolding index
onto-inj [] [] is js ha hb l e = (refl, e)
onto-inj [] (c ∷ b) is js ha hb l e =
    absurd (omega (arith, length-onto b (index c ∷ js), ap length e))
onto-inj (c ∷ a) [] is js ha hb l e =
    absurd (omega (arith, length-onto a (index c ∷ is), ap length e))
onto-inj (c ∷ a) (d ∷ b) is js ha hb l e =
    let (same, tails) = onto-inj a b (index c ∷ is) (index d ∷ js) ha.1 hb.1 (ap suc l) e in
    ground (arith, same, tails)

-- ===== src/Cache/Free/Once.antt =====
-- Every block of the cache is freed once: src/cache.c.
use comfirm_dmarc_report_ser.Common.{
  ℕ, zero, suc, ◌+◌, ◌<◌, ◌≡◌, ◌≢◌, refl, sym, ap, ap₂, ◌∙◌, Bool, true, false, ◌&&◌, List, [], ◌∷◌,
  ◌++◌, Option, none, some, arith, if◌then◌else◌, str_eq,
}
use comfirm_dmarc_report_ser.Cache.{Node, node, Slots, end, null, child, slot, find}
use comfirm_dmarc_report_ser.Cache.Free.{
  Part, itself, array, value, Block, below, free_value, own, free_nodes, free_slots,
}

abbrev pub same_part : Part → Part → Bool
same_part itself itself = true
same_part array array = true
same_part value value = true
same_part _ _ = false

-- How often a block is among others.
abbrev pub times : Part → List ℕ → List Block → ℕ
times part at [] = 0
times part at (b ∷ bs) =
    let rest = times part at bs in
    if same_part part b.part && str_eq at b.at then suc rest else rest

-- How many blocks of a kind a node has.
abbrev pub has_value {ℓ} : {V : Type ℓ} → Option V → ℕ
has_value none = 0
has_value (some v) = 1

abbrev pub owns {ℓ} : {V : Type ℓ} → Part → Option (Node V) → ℕ
owns part none = 0
owns itself (some n) = 1
owns array (some n) = 1
owns value (some (node v s)) = has_value v

times-append :
    (part : Part) (at : List ℕ) (xs ys : List Block)
    → times part at (xs ++ ys) ≡ times part at xs + times part at ys
times-append part at [] ys = omega arith
times-append part at (x ∷ xs) ys = ground (arith, times-append part at xs ys)

times-below_nil : (part : Part) (i : ℕ) (bs : List Block) → times part [] (below i bs) ≡ 0
times-below_nil part i [] = refl
times-below_nil part i (b ∷ bs) = ground (arith, times-below_nil part i bs)

times-below_self :
    (part : Part) (i : ℕ) (at : List ℕ) (bs : List Block)
    → times part (i ∷ at) (below i bs) ≡ times part at bs
times-below_self part i at [] = refl
times-below_self part i at (b ∷ bs) = ground (arith, times-below_self part i at bs)

times-below_ne :
    (part : Part) (i j : ℕ) (at : List ℕ) (bs : List Block)
    → i ≢ j
    → times part (i ∷ at) (below j bs) ≡ 0
times-below_ne part i j at [] other = refl
times-below_ne part i j at (b ∷ bs) other = ground (arith, times-below_ne part i j at bs other)

times-own_cons : (part : Part) (i : ℕ) (at : List ℕ) → times part (i ∷ at) own ≡ 0
times-own_cons itself i at = refl
times-own_cons array i at = refl
times-own_cons value i at = refl

find-none {ℓ} : (V : Type ℓ) (at : List ℕ) (part : Part) → owns part (find {V = V} none at) ≡ 0
unfolding find
find-none V [] part = refl
find-none V (i ∷ at) part = refl

module _ {ℓ} {V : Type ℓ} where
  times-free_value_cons :
      (part : Part) (i : ℕ) (at : List ℕ) (v : Option V) → times part (i ∷ at) (free_value v) ≡ 0
  times-free_value_cons part i at none = refl
  times-free_value_cons itself i at (some v) = refl
  times-free_value_cons array i at (some v) = refl
  times-free_value_cons value i at (some v) = refl

  times-own_nil :
      (part : Part) (v : Option V) (s : Slots V)
      → times part [] (free_value v ++ own) ≡ owns part (some (node v s))
  times-own_nil itself none s = refl
  times-own_nil itself (some v) s = refl
  times-own_nil array none s = refl
  times-own_nil array (some v) s = refl
  times-own_nil value none s = refl
  times-own_nil value (some v) s = refl

  times-free_slots_nil : (part : Part) (i : ℕ) (s : Slots V) → times part [] (free_slots i s) ≡ 0
  times-free_slots_nil part i end = refl
  times-free_slots_nil part i (null s) = times-free_slots_nil part (suc i) s
  times-free_slots_nil part i (child n s) =
      times-append part [] (below i (free_nodes n)) (free_slots (suc i) s)
      ∙ ap₂ ◌+◌ (times-below_nil part i (free_nodes n)) (times-free_slots_nil part (suc i) s)

  times-free_slots_lt :
      (part : Part) (i j : ℕ) (at : List ℕ) (s : Slots V)
      → i < j
      → times part (i ∷ at) (free_slots j s) ≡ 0
  times-free_slots_lt part i j at end less = refl
  times-free_slots_lt part i j at (null s) less =
      times-free_slots_lt part i (suc j) at s (omega arith)
  times-free_slots_lt part i j at (child n s) less =
      times-append part (i ∷ at) (below j (free_nodes n)) (free_slots (suc j) s)
      ∙ ap₂ ◌+◌ (times-below_ne part i j at (free_nodes n) (omega arith))
          (times-free_slots_lt part i (suc j) at s (omega arith))

  mutual
    unfolding find

    pub times-free_nodes :
        (part : Part) (at : List ℕ) (n : Node V)
        → times part at (free_nodes n) ≡ owns part (find (some n) at)
    times-free_nodes part [] (node v s) =
        times-append part [] (free_slots 0 s) (free_value v ++ own)
        ∙ ap₂ ◌+◌ (times-free_slots_nil part 0 s) (times-own_nil part v s)
        ∙ omega arith
    times-free_nodes part (i ∷ at) (node v s) =
        times-append part (i ∷ at) (free_slots 0 s) (free_value v ++ own)
        ∙ ap₂ ◌+◌
            (ap (λ (j : ℕ). times part (j ∷ at) (free_slots 0 s)) {x = i} {y = 0 + i} (omega arith)
              ∙ times-free_slots part 0 i at s)
            (times-append part (i ∷ at) (free_value v) own
              ∙ ap₂ ◌+◌ (times-free_value_cons part i at v) (times-own_cons part i at))
        ∙ omega arith

    -- `k + i` is the index of the entry at `i` of the pointers left.
    times-free_slots :
        (part : Part) (k i : ℕ) (at : List ℕ) (s : Slots V)
        → times part ((k + i) ∷ at) (free_slots k s) ≡ owns part (find (slot s i) at)
    times-free_slots part k i at end = sym (find-none V at part)
    times-free_slots part k zero at (null s) =
        times-free_slots_lt part (k + 0) (suc k) at s (omega arith) ∙ sym (find-none V at part)
    times-free_slots part k (suc i) at (null s) =
        ap (λ (j : ℕ). times part (j ∷ at) (free_slots (suc k) s)) {x = k + suc i} {y = suc k + i}
          (omega arith)
        ∙ times-free_slots part (suc k) i at s
    times-free_slots part k zero at (child n s) =
        times-append part ((k + 0) ∷ at) (below k (free_nodes n)) (free_slots (suc k) s)
        ∙ ap₂ ◌+◌
            (ap (λ (j : ℕ). times part (j ∷ at) (below k (free_nodes n))) {x = k + 0} {y = k}
                (omega arith)
              ∙ times-below_self part k at (free_nodes n)
              ∙ times-free_nodes part at n)
            (times-free_slots_lt part (k + 0) (suc k) at s (omega arith))
        ∙ omega arith
    times-free_slots part k (suc i) at (child n s) =
        times-append part ((k + suc i) ∷ at) (below k (free_nodes n)) (free_slots (suc k) s)
        ∙ ap₂ ◌+◌ (times-below_ne part (k + suc i) k at (free_nodes n) (omega arith)) (
            ap (λ (j : ℕ). times part (j ∷ at) (free_slots (suc k) s)) {x = k + suc i}
              {y = suc k + i} (omega arith)
            ∙ times-free_slots part (suc k) i at s)
        ∙ omega arith

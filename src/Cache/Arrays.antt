-- ===== src/Cache/Arrays.antt =====
-- The arrays of the trie, each of 256 pointers.
use comfirm_dmarc_report_ser.Common.{
  ℕ, zero, suc, ◌<◌, ◌≡◌, ◌≢◌, refl, ap, ◌∙◌, List, [], ◌∷◌, Option, none, some, arith,
}
use comfirm_dmarc_report_ser.Cache.{
  Node, node, Slots, end, null, child, nulls, slot, set_slot, create_node, index, or_create,
  child_or_new, save,
}

abbrev pub width {ℓ} : {V : Type ℓ} → Slots V → ℕ
width end = 0
width (null s) = suc (width s)
width (child n s) = suc (width s)

-- Every array below has 256 pointers.
abbrev mutual
  pub IsNode {ℓ} : {V : Type ℓ} → Node V → Type 0
  IsNode (node v s) = (width s ≡ 256) × AllNodes s

  pub AllNodes {ℓ} : {V : Type ℓ} → Slots V → Type 0
  AllNodes end = Unit
  AllNodes (null s) = AllNodes s
  AllNodes (child n s) = IsNode n × AllNodes s

width-nulls {ℓ} : (V : Type ℓ) (n : ℕ) → width (nulls {V = V} n) ≡ n
width-nulls V zero = refl
width-nulls V (suc n) = ap suc (width-nulls V n)

nulls-AllNodes {ℓ} : (V : Type ℓ) (n : ℕ) → AllNodes (nulls {V = V} n)
nulls-AllNodes V zero = tt
nulls-AllNodes V (suc n) = nulls-AllNodes V n

module _ {ℓ} {V : Type ℓ} where
  pub slot-set_slot :
      (s : Slots V) (i : ℕ) (n : Node V) → i < width s → slot (set_slot s i n) i ≡ some n
  slot-set_slot end i n h = absurd (omega arith)
  slot-set_slot (null s) zero n h = refl
  slot-set_slot (child _ s) zero n h = refl
  slot-set_slot (null s) (suc i) n h = slot-set_slot s i n (omega arith)
  slot-set_slot (child _ s) (suc i) n h = slot-set_slot s i n (omega arith)

  pub slot-set_slot_ne :
      (s : Slots V) (i j : ℕ) (n : Node V) → i ≢ j → slot (set_slot s i n) j ≡ slot s j
  slot-set_slot_ne end i j n h = refl
  slot-set_slot_ne (null s) zero zero n h = absurd (h refl)
  slot-set_slot_ne (null s) zero (suc j) n h = refl
  slot-set_slot_ne (null s) (suc i) zero n h = refl
  slot-set_slot_ne (null s) (suc i) (suc j) n h = slot-set_slot_ne s i j n (λ e. h (ap suc e))
  slot-set_slot_ne (child _ s) zero zero n h = absurd (h refl)
  slot-set_slot_ne (child _ s) zero (suc j) n h = refl
  slot-set_slot_ne (child _ s) (suc i) zero n h = refl
  slot-set_slot_ne (child _ s) (suc i) (suc j) n h = slot-set_slot_ne s i j n (λ e. h (ap suc e))

  width-set_slot : (s : Slots V) (i : ℕ) (n : Node V) → width (set_slot s i n) ≡ width s
  width-set_slot end i n = refl
  width-set_slot (null s) zero n = refl
  width-set_slot (child _ s) zero n = refl
  width-set_slot (null s) (suc i) n = ap suc (width-set_slot s i n)
  width-set_slot (child _ s) (suc i) n = ap suc (width-set_slot s i n)

  set_slot-AllNodes :
      (s : Slots V) (i : ℕ) (n : Node V) → AllNodes s → IsNode n → AllNodes (set_slot s i n)
  set_slot-AllNodes end i n h k = tt
  set_slot-AllNodes (null s) zero n h k = (k, h)
  set_slot-AllNodes (child _ s) zero n h k = (k, h.1)
  set_slot-AllNodes (null s) (suc i) n h k = set_slot-AllNodes s i n h k
  set_slot-AllNodes (child _ s) (suc i) n h k = (h.0, set_slot-AllNodes s i n h.1 k)

  -- The node behind a pointer.
  abbrev pub Pointed : Option (Node V) → Type 0
  Pointed none = Unit
  Pointed (some n) = IsNode n

  pub slot-Pointed : (s : Slots V) (i : ℕ) → AllNodes s → Pointed (slot s i)
  slot-Pointed end i h = tt
  slot-Pointed (null s) zero h = tt
  slot-Pointed (child n s) zero h = h.0
  slot-Pointed (null s) (suc i) h = slot-Pointed s i h
  slot-Pointed (child n s) (suc i) h = slot-Pointed s i h.1

  pub nulls-IsNode : (u : Option V) → IsNode (node u (nulls 256))
  nulls-IsNode u = (width-nulls V 256, nulls-AllNodes V 256)

  or_create-IsNode : (o : Option (Node V)) → Pointed o → IsNode (or_create o)
  unfolding create_node
  or_create-IsNode none k = nulls-IsNode none
  or_create-IsNode (some n) k = k

  pub child_or_new-IsNode : (s : Slots V) (i : ℕ) → AllNodes s → IsNode (child_or_new s i)
  unfolding child_or_new
  child_or_new-IsNode s i h = or_create-IsNode (slot s i) (slot-Pointed s i h)

  -- The array with what is saved below one of its pointers.
  pub saved_slot-AllNodes :
      (s : Slots V) (i : ℕ) (n : Node V)
      → (width s ≡ 256) × AllNodes s
      → IsNode n
      → (width (set_slot s i n) ≡ 256) × AllNodes (set_slot s i n)
  saved_slot-AllNodes s i n h k = (width-set_slot s i n ∙ h.0, set_slot-AllNodes s i n h.1 k)

  pub save-IsNode : (n : Node V) (is : List ℕ) (v : Option V) → IsNode n → IsNode (save n is v)
  unfolding save
  save-IsNode (node u s) [] v h = h
  save-IsNode (node u s) (i ∷ is) v h =
      saved_slot-AllNodes s i (save (child_or_new s i) is v) h
        (save-IsNode (child_or_new s i) is v (child_or_new-IsNode s i h.1))

-- Every index is one of the array's.
pub index-lt : (c : ℕ) → index c < 256
unfolding index
index-lt c = ground arith

abbrev pub AllBelow : List ℕ → Type 0
AllBelow [] = Unit
AllBelow (i ∷ is) = (i < 256) × AllBelow is

-- ===== src/Cache.antt =====
-- The cache of pointers by name, src/cache.c: a trie over the bytes of a name, from its last one.
pub mod Arrays
pub mod Lookup
pub mod Add
pub mod Suffix
pub mod Free
use comfirm_dmarc_report_ser.Common.{
  ℕ, zero, suc, List, [], ◌∷◌, ◌++◌, Option, none, some, ltb, if◌then◌else◌, Bytes,
}
use comfirm_dmarc_report_ser.Common.Outcome.{Outcome, ok, fault, null_deref, out_of_bounds, ◌>>=◌}

-- `cnode`, with the array of its 256 pointers. `used` is 0 in every node.
mutual
  pub data Node {ℓ} (V : Type ℓ) : Type ℓ where
    node : Option V → Slots V → Node V

  pub data Slots {ℓ} (V : Type ℓ) : Type ℓ where
    end : Slots V
    null : Slots V → Slots V
    child : Node V → Slots V → Slots V

-- `cache`
pub record Cache {ℓ} (V : Type ℓ) : Type ℓ where
  pub nodes : Slots V
  pub size : ℕ
  pub used : ℕ
  pub max : ℕ

module _ {ℓ} {V : Type ℓ} where
  -- An array of null pointers.
  abbrev pub nulls : ℕ → Slots V
  nulls zero = end
  nulls (suc n) = null (nulls n)

  -- The pointer at an index.
  abbrev pub slot : Slots V → ℕ → Option (Node V)
  slot end _ = none
  slot (null s) zero = none
  slot (child n s) zero = some n
  slot (null s) (suc i) = slot s i
  slot (child n s) (suc i) = slot s i

  abbrev pub set_slot : Slots V → ℕ → Node V → Slots V
  set_slot end _ n = end
  set_slot (null s) zero n = child n s
  set_slot (child _ s) zero n = child n s
  set_slot (null s) (suc i) n = null (set_slot s i n)
  set_slot (child m s) (suc i) n = child m (set_slot s i n)

  -- `cache_init`
  unfoldable pub init : Cache V
  init = record { nodes = nulls 256; size = 256; used = 0; max = 256 }

  -- `cache_create_node`, which calls `cache_init_node` with size 256.
  unfoldable pub create_node : Node V
  create_node = node none (nulls 256)

  abbrev pub value : Node V → Option V
  value (node v _) = v

  abbrev pub children : Node V → Slots V
  children (node _ s) = s

-- The index of a byte. `char` is signed, so that a byte from 128 on is a huge unsigned number.
unfoldable pub index : ℕ → ℕ
index c = if ltb c 128 then c else 255

-- The indices of a name in the order of the loops: the last byte first.
abbrev pub onto : Bytes → List ℕ → List ℕ
onto [] is = is
onto (c ∷ cs) is = onto cs (index c ∷ is)

abbrev pub path : Bytes → List ℕ
path id = onto id []

module _ {ℓ} {V : Type ℓ} where
  -- The child at an index, created where there is none.
  abbrev pub or_create : Option (Node V) → Node V
  or_create none = create_node
  or_create (some n) = n

  unfoldable pub child_or_new : Slots V → ℕ → Node V
  child_or_new s i = or_create (slot s i)

  -- The loop of `cache_add` from a node, and the value saved at its end.
  unfoldable pub save : Node V → List ℕ → Option V → Node V
  save n [] v = node v (children n)
  save n (i ∷ is) v =
      node (value n) (set_slot (children n) i (save (child_or_new (children n) i) is v))

  abbrev pub add_at : Cache V → List ℕ → Option V → Outcome (Cache V)
  add_at c [] v = fault out_of_bounds
  add_at c (i ∷ is) v =
      ok (record c { nodes = set_slot c.nodes i (save (child_or_new c.nodes i) is v) })

  -- `cache_add`. The name must have a byte: of an empty one `id[-1]` is read. The value may be NULL.
  unfoldable pub add : Cache V → Bytes → Option V → Outcome (Cache V)
  add c id v = add_at c (path id) v

  -- The loop of `cache_get` and `cache_get_node`, which asks of no pointer whether it is NULL.
  unfoldable pub follow : Option (Node V) → List ℕ → Outcome (Option (Node V))
  follow n [] = ok n
  follow none (i ∷ is) = fault null_deref
  follow (some n) (i ∷ is) = follow (slot (children n) i) is

  -- The loop of `cache_get_exists` and `cache_exists`, which does.
  unfoldable pub find : Option (Node V) → List ℕ → Option (Node V)
  find none is = none
  find (some n) [] = some n
  find (some n) (i ∷ is) = find (slot (children n) i) is

  -- The first pointer, and the rest of the name.
  abbrev pub first {κ} :
      {A : Type κ} → Cache V → List ℕ → (Option (Node V) → List ℕ → Outcome A) → Outcome A
  first c [] next = fault out_of_bounds
  first c (i ∷ is) next = next (slot c.nodes i) is

  -- What a pointer to a node leads to, and the answer of `cache_exists`.
  abbrev pub held : Option (Node V) → Option V
  held none = none
  held (some n) = value n

  abbrev pub answer : Option (Node V) → ℕ
  answer none = 1
  answer (some n) = 0

  abbrev pub read_value : Option (Node V) → Outcome (Option V)
  read_value none = fault null_deref
  read_value (some n) = ok (value n)

  -- `cache_get_node`. In the four lookups `id` is the `len` bytes that are read.
  unfoldable pub get_node : Cache V → Bytes → Outcome (Option (Node V))
  get_node c id = first c (path id) follow

  -- `cache_get`
  unfoldable pub get : Cache V → Bytes → Outcome (Option V)
  get c id = first c (path id) (λ n is. follow n is >>= read_value)

  -- `cache_get_exists`
  unfoldable pub get_exists : Cache V → Bytes → Outcome (Option V)
  get_exists c id = first c (path id) (λ n is. ok (held (find n is)))

  -- `cache_exists`: 1 for a name with no node.
  unfoldable pub exists : Cache V → Bytes → Outcome ℕ
  exists c id = first c (path id) (λ n is. ok (answer (find n is)))

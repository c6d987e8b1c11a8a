-- ===== src/Cache/Free/Nested.antt =====
-- The order in which the cache is freed: src/cache.c.
use comfirm_dmarc_report_ser.Common.{
  ℕ, suc, ◌<◌, ◌≡◌, refl, Bool, true, false, ◌&&◌, List, [], ◌∷◌, ◌++◌, Option, none, some, arith,
  ◌==◌,
}
use comfirm_dmarc_report_ser.Cache.{Node, node, Slots, end, null, child, Cache, find}
use comfirm_dmarc_report_ser.Cache.Free.{
  Part, itself, array, value, Block, block, below, free_value, own, free_nodes, free_slots, free,
}
use comfirm_dmarc_report_ser.Cache.Free.Once.{times, owns, times-free_nodes}

-- Whether a node is another one or one above it, and whether it is above it.
abbrev pub leads_to : List ℕ → List ℕ → Bool
leads_to [] at = true
leads_to (i ∷ is) [] = false
leads_to (i ∷ is) (j ∷ js) = i == j && leads_to is js

abbrev pub is_above : List ℕ → List ℕ → Bool
is_above [] [] = false
is_above [] (j ∷ js) = true
is_above (i ∷ is) [] = false
is_above (i ∷ is) (j ∷ js) = i == j && is_above is js

-- What may be freed after a block: after a node, nothing of it or below it; after its array, nothing
-- below it.
abbrev pub Allows : Part → List ℕ → List ℕ → Type 0
Allows itself at later = leads_to at later ≡ false
Allows array at later = is_above at later ≡ false
Allows value at later = Unit

abbrev pub AllowsAll : Block → List Block → Type 0
AllowsAll b [] = Unit
AllowsAll b (l ∷ ls) = Allows b.part b.at l.at × AllowsAll b ls

-- Every block allows those after it.
abbrev pub Nested : List Block → Type 0
Nested [] = Unit
Nested (b ∷ bs) = AllowsAll b bs × Nested bs

abbrev Before : List Block → List Block → Type 0
Before [] ls = Unit
Before (b ∷ bs) ls = AllowsAll b ls × Before bs ls

AllowsAll-append :
    (b : Block) (xs ys : List Block) → AllowsAll b xs → AllowsAll b ys → AllowsAll b (xs ++ ys)
AllowsAll-append b [] ys hx hy = hy
AllowsAll-append b (x ∷ xs) ys hx hy = (hx.0, AllowsAll-append b xs ys hx.1 hy)

Nested-append : (xs ys : List Block) → Nested xs → Nested ys → Before xs ys → Nested (xs ++ ys)
Nested-append [] ys hx hy before = hy
Nested-append (x ∷ xs) ys hx hy before =
    (AllowsAll-append x xs ys hx.0 before.0, Nested-append xs ys hx.1 hy before.1)

-- Below one node the order is as in the node's own tree.
Allows-cons :
    (part : Part) (i : ℕ) (at later : List ℕ)
    → Allows part at later
    → Allows part (i ∷ at) (i ∷ later)
Allows-cons itself i at later h = ground arith
Allows-cons array i at later h = ground arith
Allows-cons value i at later h = tt

AllowsAll-below :
    (i : ℕ) (b : Block) (ls : List Block)
    → AllowsAll b ls
    → AllowsAll (block b.part (i ∷ b.at)) (below i ls)
AllowsAll-below i b [] h = tt
AllowsAll-below i b (l ∷ ls) h = (Allows-cons b.part i b.at l.at h.0, AllowsAll-below i b ls h.1)

Nested-below : (i : ℕ) (bs : List Block) → Nested bs → Nested (below i bs)
Nested-below i [] h = tt
Nested-below i (b ∷ bs) h = (AllowsAll-below i b bs h.0, Nested-below i bs h.1)

-- The blocks of the cache itself, and those below a later pointer of its array.
abbrev Beyond : ℕ → List ℕ → Type 0
Beyond i [] = Unit
Beyond i (j ∷ js) = i < j

abbrev AllBeyond : ℕ → List Block → Type 0
AllBeyond i [] = Unit
AllBeyond i (b ∷ bs) = Beyond i b.at × AllBeyond i bs

Allows-Beyond :
    (part : Part) (i : ℕ) (at later : List ℕ) → Beyond i later → Allows part (i ∷ at) later
Allows-Beyond itself i at [] h = refl
Allows-Beyond itself i at (j ∷ js) h = ground arith
Allows-Beyond array i at [] h = refl
Allows-Beyond array i at (j ∷ js) h = ground arith
Allows-Beyond value i at later h = tt

AllowsAll-Beyond :
    (part : Part) (i : ℕ) (at : List ℕ) (ls : List Block)
    → AllBeyond i ls
    → AllowsAll (block part (i ∷ at)) ls
AllowsAll-Beyond part i at [] h = tt
AllowsAll-Beyond part i at (l ∷ ls) h =
    (Allows-Beyond part i at l.at h.0, AllowsAll-Beyond part i at ls h.1)

Before-below : (i : ℕ) (bs ls : List Block) → AllBeyond i ls → Before (below i bs) ls
Before-below i [] ls h = tt
Before-below i (b ∷ bs) ls h = (AllowsAll-Beyond b.part i b.at ls h, Before-below i bs ls h)

AllBeyond-append :
    (i : ℕ) (xs ys : List Block) → AllBeyond i xs → AllBeyond i ys → AllBeyond i (xs ++ ys)
AllBeyond-append i [] ys hx hy = hy
AllBeyond-append i (x ∷ xs) ys hx hy = (hx.0, AllBeyond-append i xs ys hx.1 hy)

AllBeyond-below : (i j : ℕ) (bs : List Block) → i < j → AllBeyond i (below j bs)
AllBeyond-below i j [] less = tt
AllBeyond-below i j (b ∷ bs) less = (less, AllBeyond-below i j bs less)

Before-append : (xs ys ls : List Block) → Before xs ls → Before ys ls → Before (xs ++ ys) ls
Before-append [] ys ls hx hy = hy
Before-append (x ∷ xs) ys ls hx hy = (hx.0, Before-append xs ys ls hx.1 hy)

module _ {ℓ} {V : Type ℓ} where
  AllBeyond-free_slots : (i j : ℕ) (s : Slots V) → i < j → AllBeyond i (free_slots j s)
  AllBeyond-free_slots i j end less = tt
  AllBeyond-free_slots i j (null s) less = AllBeyond-free_slots i (suc j) s (omega arith)
  AllBeyond-free_slots i j (child n s) less =
      AllBeyond-append i (below j (free_nodes n)) (free_slots (suc j) s)
        (AllBeyond-below i j (free_nodes n) less) (AllBeyond-free_slots i (suc j) s (omega arith))

  -- What is freed last is the node's own.
  AllBeyond-own : (i : ℕ) (v : Option V) → AllBeyond i (free_value v ++ own)
  AllBeyond-own i none = (tt, (tt, tt))
  AllBeyond-own i (some v) = (tt, (tt, (tt, tt)))

  Nested-own : (v : Option V) → Nested (free_value v ++ own)
  Nested-own none = ((refl, tt), (tt, tt))
  Nested-own (some v) = ((tt, (tt, tt)), ((refl, tt), (tt, tt)))

  Before-own : (k : ℕ) (s : Slots V) (v : Option V) → Before (free_slots k s) (free_value v ++ own)
  Before-own k end v = tt
  Before-own k (null s) v = Before-own (suc k) s v
  Before-own k (child n s) v =
      Before-append (below k (free_nodes n)) (free_slots (suc k) s) (free_value v ++ own)
        (Before-below k (free_nodes n) (free_value v ++ own) (AllBeyond-own k v))
        (Before-own (suc k) s v)

  mutual
    Nested-free_nodes : (n : Node V) → Nested (free_nodes n)
    Nested-free_nodes (node v s) =
        Nested-append (free_slots 0 s) (free_value v ++ own) (Nested-free_slots 0 s) (Nested-own v)
          (Before-own 0 s v)

    Nested-free_slots : (k : ℕ) (s : Slots V) → Nested (free_slots k s)
    Nested-free_slots k end = tt
    Nested-free_slots k (null s) = Nested-free_slots (suc k) s
    Nested-free_slots k (child n s) =
        Nested-append (below k (free_nodes n)) (free_slots (suc k) s)
          (Nested-below k (free_nodes n) (Nested-free_nodes n)) (Nested-free_slots (suc k) s)
          (Before-below k (free_nodes n) (free_slots (suc k) s)
            (AllBeyond-free_slots k (suc k) s (omega arith)))

-- `cache_free` frees every node of the cache and its array once, frees what its value field points to
-- once for each node where it is not NULL, and nothing else but the cache itself and its array; once
-- a node is freed, nothing of it or below it is freed any more, and once an array is freed, nothing
-- below it.
pub free_lem {ℓ} :
    {V : Type ℓ} (c : Cache V) (part : Part) (at : List ℕ)
    → (times part at (free c) ≡ owns part (find (some (node none c.nodes)) at)) × Nested (free c)
unfolding free
free_lem c part at =
    (times-free_nodes part at (node none c.nodes), Nested-free_nodes (node none c.nodes))

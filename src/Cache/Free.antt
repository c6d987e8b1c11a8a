-- ===== src/Cache/Free.antt =====
-- Freeing the cache, src/cache.c: the calls of `free` in their order. Every array has 256 pointers,
-- so that the loops go through the whole array.
pub mod Once
pub mod Nested
pub mod Pointers
use comfirm_dmarc_report_ser.Common.{
  ℕ, zero, suc, ◌+◌, Bool, true, false, ◌&&◌, List, [], ◌∷◌, ◌++◌, Option, none, some,
  if◌then◌else◌, str_eq,
}
use comfirm_dmarc_report_ser.Cache.{Node, node, Slots, end, null, child, Cache}

-- What is allocated for a node: `cnode` or `cache` itself, its array, and the value.
pub data Part : Type 0 where
  itself array value : Part

-- A call of `free`, by the indices that lead from the cache to the node whose field or memory is
-- freed: none for the cache. Two value fields may point to the same block; Free/Pointers is about
-- the pointers.
pub record Block : Type 0 where
  pub part : Part
  pub at : List ℕ

abbrev pub block : Part → List ℕ → Block
block part at = record { part = part; at = at }

-- A block below a node, as a block below the one that has the node at an index.
abbrev pub below : ℕ → List Block → List Block
below i [] = []
below i (b ∷ bs) = block b.part (i ∷ b.at) ∷ below i bs

abbrev pub free_value {ℓ} : {V : Type ℓ} → Option V → List Block
free_value none = []
free_value (some v) = block value [] ∷ []

abbrev pub own : List Block
own = block array [] ∷ block itself [] ∷ []

-- `cache_free_nodes`, and its loop from the index `i` on.
abbrev mutual
  pub free_nodes {ℓ} : {V : Type ℓ} → Node V → List Block
  free_nodes (node v s) = free_slots 0 s ++ (free_value v ++ own)

  pub free_slots {ℓ} : {V : Type ℓ} → ℕ → Slots V → List Block
  free_slots i end = []
  free_slots i (null s) = free_slots (suc i) s
  free_slots i (child n s) = below i (free_nodes n) ++ free_slots (suc i) s

-- `cache_free`
unfoldable pub free {ℓ} : {V : Type ℓ} → Cache V → List Block
free c = free_slots 0 c.nodes ++ own

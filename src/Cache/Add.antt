-- ===== src/Cache/Add.antt =====
-- What a name leads to after `cache_add`.
use comfirm_dmarc_report_ser.Common.{
  ℕ, ◌≡◌, ◌≢◌, refl, sym, ap, ◌∙◌, List, [], ◌∷◌, Option, none, Bytes,
}
use comfirm_dmarc_report_ser.Common.Outcome.{Outcome, ok, ◌>>=◌}
use comfirm_dmarc_report_ser.Cache.{
  Node, node, Cache, children, path, save, add, add_at, first, read_value, follow, find, held, get,
  get_exists, slot,
}
use comfirm_dmarc_report_ser.Cache.Arrays.{IsNode, save-IsNode}
use comfirm_dmarc_report_ser.Cache.Lookup.{
  IsCache, AllAscii, find-save, find-save_ne, follow-find, path-cons, onto-inj,
}

module _ {ℓ} {V : Type ℓ} where
  -- The array of a cache as a node's.
  abbrev root : Cache V → Node V
  root c = node none c.nodes

  abbrev added : Cache V → List ℕ → Option V → Cache V
  added c is v = record c { nodes = children (save (root c) is v) }

  IsNode-children : (n : Node V) → IsNode n → IsNode (node none (children n))
  IsNode-children (node u s) h = h

-- Where the arrays of the cache are whole and the name is not empty: the value is added, the arrays
-- stay whole, and `cache_get` and `cache_get_exists` both give the value for the name.
pub add_lem {ℓ} :
    {V : Type ℓ} (c : Cache V) (b : ℕ) (bs : Bytes) (v : Option V)
    → IsCache c
    → (c' : Cache V) × (add c (b ∷ bs) v ≡ ok c')
      × IsCache c'
      × (get_exists c' (b ∷ bs) ≡ ok v)
      × (get c' (b ∷ bs) ≡ ok v)
unfolding add save get_exists get find
add_lem {V = V} c b bs v h =
    let (i, is, e, below) = path-cons b bs in
    let (m, found, k) = find-save (root c) (i ∷ is) v h below in
    let c' = added c (i ∷ is) v in
    (
      c',
      ap (λ (p : List ℕ). add_at c p v) e,
      IsNode-children (save (root c) (i ∷ is) v) (save-IsNode (root c) (i ∷ is) v h),
      ap (λ (p : List ℕ). first c' p (λ n is. ok (held (find n is)))) e
          ∙ ap (λ (o : Option (Node V)). ok (held o)) found
          ∙ ap ok k,
      ap (λ (p : List ℕ). first c' p (λ n is. follow n is >>= read_value)) e
          ∙ ap (λ (o : Outcome (Option (Node V))). o >>= read_value)
              (follow-find (slot c'.nodes i) is m found)
          ∙ ap ok k,
    )

-- Where the arrays of the cache are whole: adding a value for one ASCII name leaves what
-- `cache_get_exists` gives for every other ASCII name as it was, if neither name is empty.
pub add_others {ℓ} :
    {V : Type ℓ} (c c' : Cache V) (b : ℕ) (bs : Bytes) (v : Option V) (d : ℕ) (ds : Bytes)
    → IsCache c
    → AllAscii (b ∷ bs)
    → AllAscii (d ∷ ds)
    → (b ∷ bs) ≢ (d ∷ ds)
    → add c (b ∷ bs) v ≡ ok c'
    → get_exists c' (d ∷ ds) ≡ get_exists c (d ∷ ds)
unfolding add save get_exists find
add_others {V = V} c c' b bs v d ds h ha hd other e =
    let (i, is, p, below) = path-cons b bs in
    let (j, js, q, _) = path-cons d ds in
    let look : Cache V → List ℕ → Outcome (Option V) =
      λ c p. first c p (λ n is. ok (held (find n is))) in
    ap (λ (o : Outcome (Cache V)). o >>= λ c. look c (path (d ∷ ds)))
      (sym e ∙ ap (λ (p : List ℕ). add_at c p v) p)
    ∙ ap (look (added c (i ∷ is) v)) q
    ∙ ap ok (
        find-save_ne (root c) (i ∷ is) (j ∷ js) v h below
          (λ same. other (onto-inj (b ∷ bs) (d ∷ ds) [] [] ha hd refl (p ∙ same ∙ sym q)).0))
    ∙ sym (ap (look c) q)

-- ===== src/Cache/Suffix.antt =====
-- What `cache_exists` answers for the ends of a name.
use comfirm_dmarc_report_ser.Common.{
  ℕ, ◌≡◌, refl, sym, ap, ◌∙◌, List, [], ◌∷◌, ◌++◌, Option, none, some, Bytes,
}
use comfirm_dmarc_report_ser.Common.Outcome.{Outcome, ok, ◌>>=◌}
use comfirm_dmarc_report_ser.Cache.{
  Node, node, Cache, children, index, onto, path, save, add, add_at, first, find, answer, exists,
  child_or_new,
}
use comfirm_dmarc_report_ser.Cache.Arrays.{IsNode, AllBelow, child_or_new-IsNode, slot-set_slot}
use comfirm_dmarc_report_ser.Cache.Lookup.{IsCache, path-cons}

onto-append : (b : Bytes) (is js : List ℕ) → onto b (is ++ js) ≡ onto b is ++ js
onto-append [] is js = refl
onto-append (c ∷ b) is js = onto-append b (index c ∷ is) js

onto-onto : (a b : Bytes) (is : List ℕ) → onto (a ++ b) is ≡ onto b (onto a is)
onto-onto [] b is = refl
onto-onto (c ∷ a) b is = onto-onto a b (index c ∷ is)

module _ {ℓ} {V : Type ℓ} where
  -- Every node on the way is there.
  find-on_the_way :
      (n : Node V) (is js : List ℕ) (v : Option V)
      → IsNode n
      → AllBelow is
      → (m : Node V) × (find (some (save n (is ++ js) v)) is ≡ some m)
  unfolding find save
  find-on_the_way n [] js v h b = (save n js v, refl)
  find-on_the_way (node u s) (i ∷ is) js v h b =
      let (m, e) = find-on_the_way (child_or_new s i) is js v (child_or_new-IsNode s i h.1) b.1 in
      (
        m,
        ap (λ (o : Option (Node V)). find o is)
              (slot-set_slot s i (save (child_or_new s i) (is ++ js) v) (rw h.0 b.0))
            ∙ e,
      )

-- Where the arrays of the cache are whole: once a name was added, `cache_exists` answers 0, that it
-- is there, for every end of the name that is not empty, whether it was added itself or not.
pub exists_suffix {ℓ} :
    {V : Type ℓ} (c c' : Cache V) (a : Bytes) (b : ℕ) (bs : Bytes) (v : Option V)
    → IsCache c
    → add c (a ++ b ∷ bs) v ≡ ok c'
    → exists c' (b ∷ bs) ≡ ok 0
unfolding add save exists find
exists_suffix {V = V} c c' a b bs v h e =
    let (i, is, p, below) = path-cons b bs in
    let (m, found) = find-on_the_way (node none c.nodes) (i ∷ is) (path a) v h below in
    let look : Cache V → List ℕ → Outcome ℕ = λ c p. first c p (λ n is. ok (answer (find n is))) in
    let whole : path (a ++ b ∷ bs) ≡ i ∷ (is ++ path a) =
      onto-onto a (b ∷ bs) []
      ∙ onto-append (b ∷ bs) [] (path a)
      ∙ ap (λ (l : List ℕ). l ++ path a) p in
    ap (λ (o : Outcome (Cache V)). o >>= λ c. look c (path (b ∷ bs)))
      (sym e ∙ ap (λ (l : List ℕ). add_at c l v) whole)
    ∙ ap (look (record c { nodes = children (save (node none c.nodes) (i ∷ (is ++ path a)) v) })) p
    ∙ ap (λ (o : Option (Node V)). ok (answer o)) found

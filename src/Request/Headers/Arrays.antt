-- ===== src/Request/Headers/Arrays.antt =====
-- Character arrays that are written byte by byte.
use comfirm_dmarc_report_ser.Common.{
  ℕ, ◌+◌, ◌<◌, ◌≡◌, refl, sym, ap, ◌∙◌, [], ◌∷◌, ◌++◌, arith, length, length-append, length-set,
  set-append, set, append_assoc, Bytes, c_string, NoNul, c_string-terminated,
}

-- `cs` written from the index `i` on.
abbrev pub blit : Bytes → ℕ → Bytes → Bytes
blit arr i [] = arr
blit arr i (c ∷ cs) = blit (set arr i c) (i + 1) cs

pub length-blit : (arr : Bytes) (i : ℕ) (cs : Bytes) → length (blit arr i cs) ≡ length arr
length-blit arr i [] = refl
length-blit arr i (c ∷ cs) = length-blit (set arr i c) (i + 1) cs ∙ length-set arr i c

-- An array that begins with `p`, once `cs` and a NUL are written behind `p`.
terminated :
    (p q cs : Bytes) (i j : ℕ)
    → i ≡ length p
    → j ≡ i + length cs
    → length cs < length q
    → (junk : Bytes) × (set (blit (p ++ q) i cs) j 0 ≡ p ++ (cs ++ 0 ∷ junk))
terminated p [] cs i j ei ej h = absurd (omega arith)
terminated p (d ∷ q) [] i j ei ej h =
    let at : j ≡ length p = omega arith in (q, rw at (set-append p q 0 d))
terminated p (d ∷ q) (c ∷ cs) i j ei ej h =
    let next : i + 1 ≡ length (p ++ c ∷ []) = omega (arith, length-append p (c ∷ [])) in
    let (junk, e) = terminated (p ++ c ∷ []) q cs (i + 1) j next (omega arith) (omega arith) in
    (
      junk,
      ap (λ (arr : Bytes). set (blit arr (i + 1) cs) j 0)
            (rw ei (set-append p q c d) ∙ sym (append_assoc p (c ∷ []) q))
          ∙ e
          ∙ append_assoc p (c ∷ []) (cs ++ 0 ∷ junk),
    )

-- What C reads back from an array after `cs` and a NUL were written to it from its start.
pub c_string-blit :
    (arr cs : Bytes)
    → NoNul cs
    → length cs < length arr
    → c_string (set (blit arr 0 cs) (length cs) 0) ≡ cs
c_string-blit arr cs clean h =
    let (junk, e) = terminated [] arr cs 0 (length cs) refl (omega arith) h in
    rw e (c_string-terminated cs junk clean)

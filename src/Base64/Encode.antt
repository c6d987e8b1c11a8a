-- ===== src/Base64/Encode.antt =====
-- The encoding that the decoder reads, and what its loop skips.
use comfirm_dmarc_report_ser.Common.{
  ℕ, suc, ◌+◌, ◌*◌, ◌/◌, ◌%◌, ◌≤◌, ◌<◌, ◌≡◌, ◌≢◌, refl, ap, false, [], ◌∷◌, ◌++◌, some, arith, ◌⊎◌,
  inl, inr, length, length-append, Bytes,
}
use comfirm_dmarc_report_ser.Base64.{isbase64, skip_eol}
use comfirm_dmarc_report_ser.Base64.Quads.{digit, digit_lem}

-- The encoding of RFC 4648, with `eol` behind each four characters of three whole bytes.
abbrev pub encode : Bytes → Bytes → Bytes
encode eol [] = []
encode eol (x ∷ []) = digit (x / 4) ∷ digit (x % 4 * 16 + 0) ∷ b'=' ∷ b'=' ∷ []
encode eol (x ∷ y ∷ []) =
    digit (x / 4) ∷ digit (x % 4 * 16 + y / 16) ∷ digit (y % 16 * 4 + 0) ∷ b'=' ∷ []
encode eol (x ∷ y ∷ z ∷ r) =
    digit (x / 4)
    ∷ digit (x % 4 * 16 + y / 16)
    ∷ digit (y % 16 * 4 + z / 64)
    ∷ digit (z % 64)
    ∷ (eol ++ encode eol r)

-- How many times four characters there are.
abbrev pub groups : Bytes → ℕ
groups [] = 0
groups (x ∷ []) = 1
groups (x ∷ y ∷ []) = 1
groups (x ∷ y ∷ z ∷ r) = suc (groups r)

abbrev pub AllBytes : Bytes → Type 0
AllBytes [] = Unit
AllBytes (c ∷ cs) = (c < 256) × AllBytes cs

abbrev pub AllEol : Bytes → Type 0
AllEol [] = Unit
AllEol (c ∷ cs) = ((c ≡ 13) ⊎ (c ≡ 10)) × AllEol cs

pub skip_eol-append :
    (eol : Bytes) (c : ℕ) (t : Bytes)
    → AllEol eol
    → c ≢ 13
    → c ≢ 10
    → skip_eol (eol ++ c ∷ t) ≡ some (c ∷ t)
skip_eol-append [] c t a h k = ground arith
skip_eol-append (e ∷ eol) c t (inl p, a) h k = simp p (skip_eol-append eol c t a h k)
skip_eol-append (e ∷ eol) c t (inr p, a) h k = simp p (skip_eol-append eol c t a h k)

pub digit-ne : (k c : ℕ) → k < 64 → isbase64 c ≡ false → digit k ≢ c
digit-ne k c h e = λ p. cc ((digit_lem k h).1, e, ap isbase64 p)

pub skip_eol-digit :
    (eol : Bytes) (k : ℕ) (t : Bytes)
    → AllEol eol
    → k < 64
    → skip_eol (eol ++ digit k ∷ t) ≡ some (digit k ∷ t)
unfolding isbase64
skip_eol-digit eol k t a h =
    skip_eol-append eol (digit k) t a (digit-ne k 13 h refl) (digit-ne k 10 h refl)

pub groups-pos : (x : ℕ) (r : Bytes) → 0 < groups (x ∷ r)
groups-pos x [] = omega arith
groups-pos x (y ∷ []) = omega arith
groups-pos x (y ∷ z ∷ r) = omega arith

-- The line ends in front of more text.
pub skip_eol-encode :
    (eol : Bytes) (x : ℕ) (r t : Bytes)
    → AllEol eol
    → x < 256
    → skip_eol (eol ++ (encode eol (x ∷ r) ++ t)) ≡ some (encode eol (x ∷ r) ++ t)
skip_eol-encode eol x [] t a h = skip_eol-digit eol (x / 4) _ a (omega arith)
skip_eol-encode eol x (y ∷ []) t a h = skip_eol-digit eol (x / 4) _ a (omega arith)
skip_eol-encode eol x (y ∷ z ∷ r) t a h = skip_eol-digit eol (x / 4) _ a (omega arith)

pub groups-length : (eol : Bytes) (bs : Bytes) → groups bs ≤ length (encode eol bs)
groups-length eol [] = omega arith
groups-length eol (x ∷ []) = omega arith
groups-length eol (x ∷ y ∷ []) = omega arith
groups-length eol (x ∷ y ∷ z ∷ r) =
    omega (arith, groups-length eol r, length-append eol (encode eol r))

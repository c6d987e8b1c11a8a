-- ===== src/Base64/Rounds.antt =====
-- One round of the decoder.
use comfirm_dmarc_report_ser.Common.{
  ℕ, suc, ◌+◌, ◌*◌, ◌/◌, ◌%◌, ◌^◌, ◌<◌, ◌≡◌, refl, ap, ap₂, ◌∙◌, false, [], ◌∷◌, ◌++◌, append-nil,
  append_assoc, some, arith, ◌==◌, if◌then◌else◌, Bytes,
}
use comfirm_dmarc_report_ser.Common.Outcome.{ok, fault, out_of_bounds}
use comfirm_dmarc_report_ser.Base64.{isbase64, three, skip_eol, is_readable, less_four, loop}
use comfirm_dmarc_report_ser.Base64.Quads.{digit, digit_lem, first_byte, second_byte, third_byte}
use comfirm_dmarc_report_ser.Base64.Encode.{
  encode, groups, AllBytes, AllEol, skip_eol-append, skip_eol-encode, groups-pos,
}

-- A round on four characters of the table.
round_full :
    (fuel a b c d len : ℕ) (src out : Bytes)
    → a < 64
    → b < 64
    → c < 64
    → d < 64
    → loop (suc fuel) (some (digit a ∷ digit b ∷ digit c ∷ digit d ∷ src)) len out ≡ (
        if less_four len == 0
        then (if is_readable (skip_eol src) then ok (out ++ three a b c d) else fault out_of_bounds)
        else loop fuel (skip_eol src) (less_four len) (out ++ three a b c d))
unfolding loop
round_full fuel a b c d len src out ha hb hc hd =
    let (va, ba) = digit_lem a ha in
    let (vb, bb) = digit_lem b hb in
    let (vc, bc) = digit_lem c hc in
    let (vd, bd) = digit_lem d hd in simp (va, vb, vc, vd, bb, bc, bd) refl

pad : isbase64 b'=' ≡ false
unfolding isbase64
pad = refl

-- The last round, on one byte and on two.
pub round_one :
    (fuel x len : ℕ) (src out : Bytes)
    → x < 256
    → loop (suc fuel) (some (encode [] (x ∷ []) ++ src)) len out ≡ ok (out ++ x ∷ [])
unfolding loop
round_one fuel x len src out h =
    let (va, ba) = digit_lem (x / 4) (omega arith) in
    let (vb, bb) = digit_lem (x % 4 * 16 + 0) (omega arith) in
    simp (va, vb, bb, pad) (ap (λ (c : ℕ). ok (out ++ c ∷ [])) (first_byte x 0 h (omega arith)))

pub round_two :
    (fuel x y len : ℕ) (src out : Bytes)
    → x < 256
    → y < 256
    → loop (suc fuel) (some (encode [] (x ∷ y ∷ []) ++ src)) len out ≡ ok (out ++ x ∷ y ∷ [])
unfolding loop
round_two fuel x y len src out h k =
    let (va, ba) = digit_lem (x / 4) (omega arith) in
    let (vb, bb) = digit_lem (x % 4 * 16 + y / 16) (omega arith) in
    let (vc, bc) = digit_lem (y % 16 * 4 + 0) (omega arith) in
    simp (va, vb, vc, bb, bc, pad)
      (ap₂ (λ (c d : ℕ). ok (out ++ c ∷ d ∷ [])) (first_byte x (y / 16) h (omega arith))
        (second_byte (x % 4) y 0 (omega arith) k (omega arith)))

three_lem :
    (x y z : ℕ)
    → x < 256
    → y < 256
    → z < 256
    → three (x / 4) (x % 4 * 16 + y / 16) (y % 16 * 4 + z / 64) (z % 64) ≡ x ∷ y ∷ z ∷ []
three_lem x y z hx hy hz = λ i.
    first_byte x (y / 16) hx (omega arith) i
    ∷ second_byte (x % 4) y (z / 64) (omega arith) hy (omega arith) i
    ∷ third_byte (y % 16) z (omega arith) hz i
    ∷ []

less_four-suc : (n : ℕ) → suc n * 4 < 2 ^ 31 → less_four (suc n * 4) ≡ n * 4
less_four-suc n h = ground arith

module _ (eol stale : Bytes) (a : AllEol eol) where
  -- Three bytes that are the last ones, and three that are not.
  pub full_last :
      (fuel x y z : ℕ) (out : Bytes)
      → AllBytes (x ∷ y ∷ z ∷ [])
      → loop (suc fuel) (some (encode eol (x ∷ y ∷ z ∷ []) ++ 0 ∷ stale)) 4 out
        ≡ ok (out ++ x ∷ y ∷ z ∷ [])
  full_last fuel x y z out (hx, (hy, (hz, _))) =
      round_full fuel (x / 4) (x % 4 * 16 + y / 16) (y % 16 * 4 + z / 64) (z % 64) 4
        ((eol ++ []) ++ 0 ∷ stale) out (omega arith) (omega arith) (omega arith) (omega arith)
      ∙ simp (append-nil, skip_eol-append eol 0 stale a (omega arith) (omega arith))
          (ap (λ (s : Bytes). ok (out ++ s)) (three_lem x y z hx hy hz))

  pub full_more :
      (fuel x y z w : ℕ) (r out : Bytes)
      → AllBytes (x ∷ y ∷ z ∷ w ∷ r)
      → suc (groups (w ∷ r)) * 4 < 2 ^ 31
      → loop
          (suc fuel)
          (some (encode eol (x ∷ y ∷ z ∷ w ∷ r) ++ 0 ∷ stale))
          (suc (groups (w ∷ r)) * 4)
          out
        ≡ loop fuel
            (some (encode eol (w ∷ r) ++ 0 ∷ stale))
            (groups (w ∷ r) * 4)
            (out ++ x ∷ y ∷ z ∷ [])
  full_more fuel x y z w r out (hx, (hy, (hz, (hw, _)))) small =
      round_full fuel (x / 4) (x % 4 * 16 + y / 16) (y % 16 * 4 + z / 64) (z % 64)
        (suc (groups (w ∷ r)) * 4) ((eol ++ encode eol (w ∷ r)) ++ 0 ∷ stale) out (omega arith)
        (omega arith) (omega arith) (omega arith)
      ∙ simp (less_four-suc (groups (w ∷ r)) small, open_len)
          (rw append_assoc (
            rw (skip_eol-encode eol w r (0 ∷ stale) a hw) (
              ap
                (λ (s : Bytes).
                  loop fuel (some (encode eol (w ∷ r) ++ 0 ∷ stale)) (groups (w ∷ r) * 4)
                    (out ++ s))
                (three_lem x y z hx hy hz))))
    where
      open_len : (groups (w ∷ r) * 4 == 0) ≡ false
      open_len = ground (arith, groups-pos w r)

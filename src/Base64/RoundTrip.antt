-- ===== src/Base64/RoundTrip.antt =====
-- What the decoder makes of encoded bytes.
use comfirm_dmarc_report_ser.Common.{
  ℕ, zero, suc, ◌+◌, ◌*◌, ◌/◌, ◌%◌, ◌^◌, ◌≤◌, ◌<◌, ◌≡◌, refl, ap, ◌∙◌, false, [], ◌∷◌, ◌++◌,
  append_assoc, some, arith, ◌==◌, length, length-append, Bytes,
}
use comfirm_dmarc_report_ser.Common.Outcome.{ok}
use comfirm_dmarc_report_ser.Base64.{isbase64, loop, base64_decode}
use comfirm_dmarc_report_ser.Base64.Quads.{digit}
use comfirm_dmarc_report_ser.Base64.Encode.{
  encode, groups, AllBytes, AllEol, digit-ne, groups-pos, groups-length,
}
use comfirm_dmarc_report_ser.Base64.Rounds.{round_one, round_two, full_last, full_more}

module _ (eol stale : Bytes) (a : AllEol eol) where
  loop_lem :
      (fuel x : ℕ) (r out : Bytes)
      → AllBytes (x ∷ r)
      → groups (x ∷ r) * 4 < 2 ^ 31
      → groups (x ∷ r) ≤ suc fuel
      → loop (suc fuel) (some (encode eol (x ∷ r) ++ 0 ∷ stale)) (groups (x ∷ r) * 4) out
        ≡ ok (out ++ x ∷ r)
  loop_lem fuel x [] out b small enough = round_one fuel x 4 (0 ∷ stale) out b.0
  loop_lem fuel x (y ∷ []) out b small enough = round_two fuel x y 4 (0 ∷ stale) out b.0 b.1.0
  loop_lem fuel x (y ∷ z ∷ []) out b small enough = full_last eol stale a fuel x y z out b
  loop_lem zero x (y ∷ z ∷ w ∷ r) out b small enough = absurd (omega (arith, groups-pos w r))
  loop_lem (suc fuel) x (y ∷ z ∷ w ∷ r) out b small enough =
      full_more eol stale a (suc fuel) x y z w r out b small
      ∙ loop_lem fuel w r (out ++ x ∷ y ∷ z ∷ []) b.1.1.1 (omega arith) (omega arith)
      ∙ ap ok (append_assoc out (x ∷ y ∷ z ∷ []) (w ∷ r))

starts :
    (k : ℕ) (src : Bytes) (len : ℕ)
    → k < 64
    → (len == 0) ≡ false
    → base64_decode (digit k ∷ src) len ≡ loop (suc (length src)) (some (digit k ∷ src)) len []
unfolding base64_decode isbase64
starts k src len h e = simp (not_nul, e)
  where
    not_nul : (digit k == 0) ≡ false
    not_nul = ground (arith, digit-ne k 0 h refl)

-- Decoding the encoding of bytes gives the bytes back, whatever line ends stand behind each four
-- characters of three whole bytes and whatever stands in memory behind the terminating NUL. The
-- length that is passed counts the characters without the line ends, and is below 2^31.
pub base64_decode-encode :
    (eol stale bs : Bytes)
    → AllEol eol
    → AllBytes bs
    → groups bs * 4 < 2 ^ 31
    → base64_decode (encode eol bs ++ 0 ∷ stale) (groups bs * 4) ≡ ok bs
unfolding base64_decode
base64_decode-encode eol stale [] a b small = refl
base64_decode-encode eol stale (x ∷ []) a b small =
    let src : Bytes = digit (x % 4 * 16 + 0) ∷ b'=' ∷ b'=' ∷ 0 ∷ stale in
    starts (x / 4) src 4 (omega (arith, b.0)) refl
    ∙ loop_lem eol stale a (length src) x [] [] b small (omega arith)
base64_decode-encode eol stale (x ∷ y ∷ []) a b small =
    let src : Bytes = digit (x % 4 * 16 + y / 16) ∷ digit (y % 16 * 4 + 0) ∷ b'=' ∷ 0 ∷ stale in
    starts (x / 4) src 4 (omega (arith, b.0)) refl
    ∙ loop_lem eol stale a (length src) x (y ∷ []) [] b small (omega arith)
base64_decode-encode eol stale (x ∷ y ∷ z ∷ r) a b small =
    let src : Bytes =
      digit (x % 4 * 16 + y / 16)
      ∷ digit (y % 16 * 4 + z / 64)
      ∷ digit (z % 64)
      ∷ ((eol ++ encode eol r) ++ 0 ∷ stale) in
    starts (x / 4) src (suc (groups r) * 4) (omega (arith, b.0)) (ground arith)
    ∙ loop_lem eol stale a (length src) x (y ∷ z ∷ r) [] b small (
        omega (
          arith,
          groups-length eol r,
          length-append eol (encode eol r),
          length-append (eol ++ encode eol r) (0 ∷ stale),
        ))

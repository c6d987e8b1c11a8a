-- ===== src/Config/Overflow.antt =====
-- A key that is too long for its buffer.
use comfirm_dmarc_report_ser.Common.{
  ◌+◌, ◌≤◌, ◌<◌, ◌≡◌, refl, ◌∙◌, true, [], ◌∷◌, ◌++◌, arith, ltb, lt→ltb, length, length-append,
  Bytes, Bool-cases, inl, inr, NoNul,
}
use comfirm_dmarc_report_ser.Common.Int.{ℤ}
use comfirm_dmarc_report_ser.Common.Outcome.{fault, out_of_bounds}
use comfirm_dmarc_report_ser.Config.{Config, key_size, Line, put_key, put, scan, load_line}
use comfirm_dmarc_report_ser.Config.Load.{AllKey, scan-step, c_string-NoNul}

scan-long_key :
    (k rest : Bytes) (l : Line)
    → AllKey k
    → l.is_key ≡ true
    → length l.key ≤ key_size
    → key_size < length l.key + length k
    → scan (k ++ rest) l ≡ fault out_of_bounds
unfolding scan put put_key
scan-long_key [] rest l h b n m = absurd (omega arith)
scan-long_key (c ∷ k) rest l h b n m = elim (Bool-cases (ltb (length l.key) key_size)) [
  | inl room ↦
      scan-step c (k ++ rest) l (record l { key = l.key ++ c ∷ [] }) h.0.0.4 (ground arith)
      ∙ scan-long_key k rest (record l { key = l.key ++ c ∷ [] }) h.1 b
          (ground (arith, length-append l.key (c ∷ [])))
          (omega (arith, length-append l.key (c ∷ [])))
  | inr full ↦ ground arith
]

-- A line that begins with more than 512 bytes of a key, and has no NUL, is written past the end of
-- `key`.
pub long_key_overflows :
    (atoi : Bytes → ℤ) (k rest : Bytes) (conf : Config)
    → AllKey k
    → NoNul rest
    → key_size < length k
    → load_line atoi (k ++ rest) conf ≡ fault out_of_bounds
unfolding load_line
long_key_overflows atoi k rest conf h r n = rw (c_string-NoNul (k ++ rest) (key-NoNul k rest h r)) (
    rw (lt→ltb 1 (length (k ++ rest)) (omega (arith, length-append k rest))) (
      rw
        (scan-long_key k rest (record { key = []; value = []; is_key = true }) h refl (omega arith)
          (omega (arith, n)))
        refl))
  where
    key-NoNul : (k rest : Bytes) → AllKey k → NoNul rest → NoNul (k ++ rest)
    key-NoNul [] rest h r = r
    key-NoNul (c ∷ k) rest h r = (h.0.0.0, key-NoNul k rest h.1 r)

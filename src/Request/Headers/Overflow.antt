-- ===== src/Request/Headers/Overflow.antt =====
-- `request_parse_data` checks the number of headers only where it ends a value.
use comfirm_dmarc_report_ser.Common.{
  ℕ, ◌+◌, ◌<◌, ◌≡◌, ◌∙◌, List, [], ◌∷◌, ◌++◌, arith, length, length-append, Bytes,
}
use comfirm_dmarc_report_ser.Common.Outcome.{fault, out_of_bounds}
use comfirm_dmarc_report_ser.Data.{Hdr, header_max_len}
use comfirm_dmarc_report_ser.Request.{Request}
use comfirm_dmarc_report_ser.Request.Headers.{round, branch, end_key, store_byte, loop, parse_data}
use comfirm_dmarc_report_ser.Request.Headers.Print.{
  Field, mail_text, KeyByte, KeyBytes, AllFields, fill,
}
use comfirm_dmarc_report_ser.Request.Headers.Parse.{start, loop-next}

-- With all headers used, the first byte of a line is written outside their array.
module _ (before : List Hdr) (stale : Bytes) (used : length before ≡ header_max_len) where
  round-beyond :
      (c : ℕ) (rest : Bytes)
      → KeyByte c
      → round (c ∷ rest) stale (start before []) c ≡ fault out_of_bounds
  unfolding round branch end_key store_byte
  round-beyond c rest b = ground (arith, length-append before [])

  round_colon-beyond :
      (rest : Bytes) → round (b':' ∷ rest) stale (start before []) b':' ≡ fault out_of_bounds
  unfolding round branch end_key store_byte
  round_colon-beyond rest = ground (arith, length-append before [])

  loop-beyond :
      (k rest : Bytes)
      → KeyBytes k
      → loop stale (k ++ (b':' ∷ rest)) 0 (start before []) ≡ fault out_of_bounds
  unfolding loop
  loop-beyond [] rest b = rw (round_colon-beyond rest)
  loop-beyond (c ∷ k) rest b = rw (round-beyond c (k ++ (b':' ∷ rest)) b.0)

loop-overflow :
    (stale tail : Bytes) (f : Field) (fs : List Field) (before after : List Hdr)
    → AllFields (f ∷ fs)
    → length before + length after ≡ header_max_len
    → length after < length (f ∷ fs)
    → loop stale (mail_text (f ∷ fs) tail) 0 (start before after) ≡ fault out_of_bounds
loop-overflow stale tail f fs before [] v all more =
    loop-beyond before stale (omega arith) f.key _ v.0.key_bytes
loop-overflow stale tail f [] before (h ∷ after) v all more = absurd (omega arith)
loop-overflow stale tail f (g ∷ fs) before (h ∷ after) v all more =
    loop-next before after h stale f g _ v.0 v.1.0.key_bytes (omega arith)
    ∙ loop-overflow stale tail g fs (before ++ fill f h ∷ []) after v.1
        (omega (arith, length-append before (fill f h ∷ []))) (omega arith)

-- Where the array of headers has 20 places: a mail of more than twenty well-formed header lines
-- makes `request_parse_data` write outside of it.
pub parse_data_overflows :
    (stale tail : Bytes) (f : Field) (fs : List Field) (req : Request)
    → AllFields (f ∷ fs)
    → header_max_len < length (f ∷ fs)
    → length req.headers ≡ header_max_len
    → req.text ≡ mail_text (f ∷ fs) tail
    → parse_data stale req ≡ fault out_of_bounds
unfolding parse_data
parse_data_overflows stale tail f fs req v many full e =
    simp (e, loop-overflow stale tail f fs [] req.headers v (omega arith) (omega arith))

-- ===== src/Mailhandler/Reports/Signed.antt =====
-- What a report that is posted comes from.
use comfirm_dmarc_report_ser.Common.{
  ℕ, ◌≤◌, ◌≡◌, ◌≢◌, refl, true, ◌==◌, List, Option, none, some, arith, take, leb, leb→le, Bytes,
  codes, starts_with, Bool-cases, inl, inr,
}
use comfirm_dmarc_report_ser.Common.Outcome.{ok}
use comfirm_dmarc_report_ser.Data.{Hdr, Mail, header_max_len}
use comfirm_dmarc_report_ser.Mailhandler.Reports.{
  DkimHeader, Services, domain, public_key, headers_of, dns_gettxt, check_record, with_answer,
  with_header, validate_dkim, report,
}

-- The mail has a DKIM header, its domain has a TXT record with an RSA key, and the signature is right
-- under this key.
pub record IsSigned (lib : Services) (hs : List Hdr) (body : Bytes) : Type 0 where
  pub header : DkimHeader
  pub has_header : lib.dkim_get_header hs ≡ some header
  pub answer : Bytes
  pub has_answer : dns_gettxt lib (domain header) ≡ some answer
  pub rsa : starts_with (lib.dkim_parse_dns answer).k (codes "rsa") ≡ true
  pub right : lib.dkim_validate hs body header (public_key (lib.dkim_parse_dns answer).p) ≢ 0

module _ (lib : Services) (hs : List Hdr) (body : Bytes) where
  checked_answer :
      (d : DkimHeader) (o : Option Bytes)
      → lib.dkim_get_header hs ≡ some d
      → dns_gettxt lib (domain d) ≡ o
      → with_answer lib hs body d o ≢ 0
      → IsSigned lib hs body
  unfolding check_record
  checked_answer d none e e' h = absurd (h refl)
  checked_answer d (some a) e e' h =
      elim (Bool-cases (starts_with (lib.dkim_parse_dns a).k (codes "rsa"))) [
        | inl rsa ↦ record {
          header = d;
          has_header = e;
          answer = a;
          has_answer = e';
          rsa = rsa;
          right = λ z. h (rw rsa z);
        }
        | inr other ↦ absurd (h (rw other refl))
      ]

  checked :
      (o : Option DkimHeader)
      → lib.dkim_get_header hs ≡ o
      → with_header lib hs body o ≢ 0
      → IsSigned lib hs body
  checked none e h = absurd (h refl)
  checked (some d) e h = checked_answer d (dns_gettxt lib (domain d)) e refl h

-- Only a report whose signature is right is posted: the mail has at most 20 headers, one of them is a
-- DKIM header, its domain has a TXT record with an RSA key, and the signature was found right with
-- this key over these headers and this body.
pub posted-IsSigned :
    (lib : Services) (m : Mail) (json : Bytes)
    → report lib m ≡ ok (some json)
    → (m.header_count ≤ header_max_len) × IsSigned lib (take m.header_count m.headers) m.body
unfolding report validate_dkim headers_of
posted-IsSigned lib m json e = elim (Bool-cases (leb m.header_count header_max_len)) [
  | inr many ↦ absurd (cc (rw many at e))
  | inl few ↦ elim (Bool-cases (valid == 0)) [
    | inl wrong ↦ absurd (cc (rw wrong at (rw few at e)))
    | inr right ↦ (
      leb→le _ _ few,
      checked lib hs m.body (lib.dkim_get_header hs) refl (λ z. ground (arith, right, z)),
    )
  ]
]
  where
    hs : List Hdr
    hs = take m.header_count m.headers

    valid : ℕ
    valid = with_header lib hs m.body (lib.dkim_get_header hs)

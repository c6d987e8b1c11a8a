-- ===== src/Connection/Mails.antt =====
-- From the parsed request to a mail in the queue: the body of `connection_handle` after the data
-- was received.
pub mod Queued
pub mod NoBody
use comfirm_dmarc_report_ser.Common.{
  ℕ, suc, ◌+◌, Bool, true, false, List, [], ◌∷◌, ◌++◌, Option, none, some, ltb, leb, if◌then◌else◌,
  length, take, drop, set, Bytes,
}
use comfirm_dmarc_report_ser.Common.Outcome.{Outcome, ok, fault, null_deref, out_of_bounds, ◌>>=◌}
use comfirm_dmarc_report_ser.Data.{Hdr, Mail, header_max_len, body_max_len}
use comfirm_dmarc_report_ser.Queue
use comfirm_dmarc_report_ser.Queue.{Ref, Done}
use comfirm_dmarc_report_ser.Request.{Request}
use comfirm_dmarc_report_ser.Request.Headers.{parse_data}

abbrev pub body_len : Request → ℕ
body_len r = elim r.body [ none ↦ 0 | some b ↦ length b ]

-- The body copied to the mail, with the NUL behind it: one byte is read even where `body` is NULL. A
-- body that is too long is left out.
unfoldable pub copy_body : Request → Mail → Outcome Mail
copy_body r m =
    if ltb (body_len r) body_max_len
    then elim r.body [
      | none ↦ fault null_deref
      | some b ↦ ok (record m { body = b ++ 0 ∷ drop (length b + 1) m.body })
    ]
    else ok (record m { body = set m.body 0 0 })

-- The headers, one by one: both arrays have `header_max_len` places.
unfoldable pub copy_headers : Request → Mail → Outcome Mail
copy_headers r m =
    if leb r.header_count header_max_len
    then ok (record m {
      headers = take r.header_count r.headers ++ drop r.header_count m.headers;
      header_count = r.header_count;
    })
    else fault out_of_bounds

-- The mail object, made of what `malloc` returns for it.
unfoldable pub make_mail : Request → Mail → Outcome Mail
unfolding copy_body copy_headers
make_mail r memory = copy_body r memory >>= λ m. copy_headers r m

-- The block under `if (conn->request->process)`: the request after `request_parse_data`, and the
-- queue. Whatever `pq_enqueue` returns is only printed.
unfoldable pub process : Bytes → Mail → Request → Option Ref → Outcome (Request × Option Ref)
process stale memory r queue = parse_data stale r >>= λ r'.
    if ltb 0 r'.header_count
    then (make_mail r' memory >>= λ m. Queue.enqueue queue m >>= λ d. ok (r', some d.ref))
    else ok (r', queue)

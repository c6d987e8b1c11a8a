-- ===== src/Request/Commands.antt =====
-- `request_parse_commands`: the SMTP commands and the text after DATA.
pub mod Safe
pub mod Collect
use comfirm_dmarc_report_ser.Common.{
  ℕ, zero, suc, ◌+◌, ◌-◌, Bool, true, false, not, List, [], ◌∷◌, ◌++◌, Option, none, some, ltb, leb,
  ◌&&◌, ◌==◌, if◌then◌else◌, length, drop, set, codes, starts_with, Bytes,
}
use comfirm_dmarc_report_ser.Common.Outcome.{Outcome, ok, fault, out_of_bounds, ◌>>=◌}
use comfirm_dmarc_report_ser.Request.{Request, data_len}
use comfirm_dmarc_report_ser.Response
use comfirm_dmarc_report_ser.Response.{Response}

-- Where the loop stands after a byte: the request, the response, how many of the next bytes it
-- skips, and whether the data is too big (`conn->status` is then CONN_ERROR).
pub record Parse : Type 0 where
  pub req : Request
  pub resp : Response
  pub skip : ℕ
  pub too_big : Bool

abbrev pub parse_at : Request → Response → Parse
parse_at req resp = record { req = req; resp = resp; skip = 0; too_big = false }

abbrev pub reply : Request → Response → ℕ → Bytes → Outcome Parse
reply req resp skip s = Response.append resp s >>= λ resp'.
    ok (record { req = req; resp = resp'; skip = skip; too_big = false })

-- What the buffer begins with: the tests of the branch outside the data, in their order.
pub data Verb : Type 0 where
  data_verb ehlo mail_from rcpt_to quit_verb other : Verb

-- `strncmp(p, text, n) == 0` for a `text` of n bytes: it reads the memory from `p` on up to the first
-- byte that differs, which must not be behind its end.
unfoldable pub strncmp_eq : Bytes → Bytes → Outcome Bool
strncmp_eq memory [] = ok true
strncmp_eq [] (t ∷ ts) = fault out_of_bounds
strncmp_eq (c ∷ cs) (t ∷ ts) = if c == t then strncmp_eq cs ts else ok false

unfoldable pub tests : Bytes → List (Bytes × Verb) → Outcome Verb
tests memory [] = ok other
tests memory ((text, v) ∷ rest) =
    strncmp_eq memory text >>= λ same. if same then ok v else tests memory rest

abbrev pub commands : List (Bytes × Verb)
commands =
    (codes "DATA\r\n", data_verb)
    ∷ (codes "EHLO", ehlo)
    ∷ (codes "MAIL FROM:", mail_from)
    ∷ (codes "RCPT TO:", rcpt_to)
    ∷ (codes "QUIT", quit_verb)
    ∷ []

unfoldable pub verb : Bytes → Outcome Verb
unfolding tests strncmp_eq
verb memory = tests memory commands

-- What the branch does for each.
unfoldable pub obey : Verb → Request → Response → Outcome Parse
obey data_verb req resp =
    reply (record req { in_data = true }) resp 5 (codes "354 End data with <CR><LF>.<CR><LF>\r\n")
obey ehlo req resp = reply req resp 0 (codes "250 Hi, you have a report for me?\r\n")
obey mail_from req resp = reply req resp 0 (codes "250 Ok\r\n")
obey rcpt_to req resp = reply req resp 0 (codes "250 Ok\r\n")
obey quit_verb req resp =
    reply (record req { quit = true }) resp 0 (codes "221 Bye, see you tomorrow!\r\n")
obey other req resp = ok (parse_at req resp)

-- The branch outside the data. `memory` is the buffer from the current byte on, with what stands
-- behind the bytes received.
abbrev pub command : Request → Response → Bytes → Outcome Parse
command req resp memory = verb memory >>= λ v. obey v req resp

-- The `realloc` block.
unfoldable pub grow : Request → Request
grow req =
    if leb req.data_alloc (data_len req + 2)
    then record req { data_alloc = data_len req + 512 }
    else req

abbrev pub end_of_data : Bytes
end_of_data = codes "\r\n.\r\n"

-- The last five bytes of the data are the line with a single dot.
abbrev pub ends_data : Bytes → Bool
ends_data text = ltb 4 (length text) && starts_with (drop (length text - 5) text) end_of_data

-- The branch inside the data, for the byte `cur` and the configured `data_buffer_size`.
unfoldable pub store : ℕ → Request → Response → ℕ → Outcome Parse
unfolding grow
store limit req resp cur =
    let big = grow req in
    let text = big.text ++ cur ∷ [] in
    if not (ltb (data_len big) limit)
    then ok (record { req = big; resp = resp; skip = 0; too_big = true })
    else if not (ltb (data_len big) big.data_alloc)
    then fault out_of_bounds
    else if ends_data text
    then reply
        (record big {
          text = set text (length text - 5) 0;
          in_data = false;
          process = true;
          quit = true;
        })
        resp 0 (codes "250 Ok: queued as nada\r\n")
    else ok (parse_at (record big { text = text }) resp)

abbrev pub byte : ℕ → Request → Response → ℕ → Bytes → Outcome Parse
byte limit req resp cur memory =
    if req.in_data then store limit req resp cur else command req resp memory

-- The loop. `stale` is what the read buffer holds behind the bytes received: the comparisons of a
-- command may read on into it, up to the end of the buffer.
unfoldable pub scan : ℕ → Bytes → Bytes → ℕ → Request → Response → Outcome Parse
scan limit stale [] skip req resp =
    ok (record { req = req; resp = resp; skip = skip; too_big = false })
scan limit stale (c ∷ cs) (suc k) req resp = scan limit stale cs k req resp
scan limit stale (c ∷ cs) zero req resp = byte limit req resp c (c ∷ (cs ++ stale)) >>= λ p.
    if p.too_big then ok p else scan limit stale cs p.skip p.req p.resp

-- `request_parse_commands`, on the bytes received. It returns 1 exactly when `too_big`.
abbrev pub parse_commands : ℕ → Bytes → Bytes → Request → Response → Outcome Parse
parse_commands limit stale received req resp = scan limit stale received 0 req resp

-- ===== src/Connection/Mails/NoBody.antt =====
-- A mail with header lines and no empty line has no body, and its body is copied all the same.
use comfirm_dmarc_report_ser.Common.{
  ℕ, zero, suc, ◌<◌, ◌≡◌, refl, ap, true, false, [], ◌∷◌, ◌++◌, Option, none, some, arith, Bytes,
  length, lt→ltb, drop, if◌then◌else◌,
}
use comfirm_dmarc_report_ser.Common.Outcome.{Outcome, ok, fault, null_deref, ◌>>=◌}
use comfirm_dmarc_report_ser.Connection.Mails.{body_len, copy_body, make_mail, process}
use comfirm_dmarc_report_ser.Data.{Mail}
use comfirm_dmarc_report_ser.Queue.{Ref}
use comfirm_dmarc_report_ser.Request.{Request}
use comfirm_dmarc_report_ser.Request.Headers.{
  Cursor, Parsed, Stepped, ends_headers, branch, round, loop, parse_data,
}

-- Nowhere in the data does the loop see the empty line.
abbrev pub NoEmptyLine : Bytes → Bytes → Type 0
NoEmptyLine stale [] = Unit
NoEmptyLine stale (c ∷ cs) = (ends_headers (c ∷ cs) stale ≡ false) × NoEmptyLine stale cs

-- A loop that ends well has found no body.
abbrev NoRest : Outcome Parsed → Type 0
NoRest (ok p) = p.rest ≡ none
NoRest (fault _) = Unit

round-on :
    (rest stale : Bytes) (s : Cursor) (cur : ℕ)
    → ends_headers rest stale ≡ false
    → round rest stale s cur ≡ (branch s cur (rest ++ stale) >>= λ (s', k). ok (false, s', k))
unfolding round
round-on rest stale s cur e = rw e

-- A round that does not end the headers leaves the rest of the loop to decide.
on-NoRest :
    (cs : Bytes) (next : ℕ → Cursor → Outcome Parsed)
    → ((k : ℕ) (s : Cursor) → NoRest (next k s))
    → (o : Stepped)
    → NoRest (
        (o >>= λ (s', k). ok (false, s', k)) >>= λ (done, s', k).
        if done then ok (record { cursor = s'; rest = some (drop k cs) }) else next k s')
on-NoRest cs next h (fault _) = tt
on-NoRest cs next h (ok (s', k)) = h k s'

loop-NoRest :
    (stale text : Bytes) (skip : ℕ) (s : Cursor)
    → NoEmptyLine stale text
    → NoRest (loop stale text skip s)
unfolding loop
loop-NoRest stale [] skip s n = refl
loop-NoRest stale (c ∷ cs) (suc k) s n = loop-NoRest stale cs k s n.1
loop-NoRest stale (c ∷ cs) zero s n = rw (round-on (c ∷ cs) stale s c n.0) (
    on-NoRest cs (loop stale cs) (λ k s'. loop-NoRest stale cs k s' n.1)
      (branch s c (c ∷ (cs ++ stale))))

body-none :
    (stale : Bytes) (req req' : Request)
    → NoEmptyLine stale req.text
    → req.body ≡ none
    → parse_data stale req ≡ ok req'
    → req'.body ≡ none
unfolding parse_data
body-none stale req req' n b e = ground (
  arith,
  loop-NoRest stale req.text 0
      (record { headers = req.headers; header_count = 0; is_key = true; cur_len = 0 }) n,
)

copy_body-none : (r : Request) (m : Mail) → r.body ≡ none → copy_body r m ≡ fault null_deref
unfolding copy_body
copy_body-none r m h = simp (h, body_len-none)
  where
    body_len-none : body_len r ≡ 0
    body_len-none = ap (λ (b : Option Bytes). elim b [ none ↦ 0 | some t ↦ length t ]) h

make_mail-none : (r : Request) (m : Mail) → r.body ≡ none → make_mail r m ≡ fault null_deref
unfolding make_mail
make_mail-none r m h = simp (copy_body-none r m h)

-- Where the data has no empty line, header lines were found in it, and the request had no body before:
-- the mail is made from a body that is NULL, and the worker reads through the NULL pointer, whatever
-- the queue holds.
pub no_body_faults :
    (stale : Bytes) (memory : Mail) (req req' : Request) (queue : Option Ref)
    → NoEmptyLine stale req.text
    → req.body ≡ none
    → parse_data stale req ≡ ok req'
    → 0 < req'.header_count
    → process stale memory req queue ≡ fault null_deref
unfolding process
no_body_faults stale memory req req' queue n b parsed some_header = rw parsed (
    rw (lt→ltb 0 req'.header_count some_header)
      (simp (make_mail-none req' memory (body-none stale req req' n b parsed))))

-- ===== src/Connection/Mails/Queued.antt =====
-- A mail text that was received whole becomes a mail of the queue with the same headers and body.
use comfirm_dmarc_report_ser.Common.{
  ℕ, zero, suc, ◌+◌, ◌≤◌, ◌<◌, ◌≡◌, refl, ap, ◌∙◌, List, [], ◌∷◌, ◌++◌, append_assoc, some, arith,
  length, length-append, Bytes, take, drop, codes, c_string, NoNul, c_string-terminated, lt→ltb,
}
use comfirm_dmarc_report_ser.Common.Outcome.{ok}
use comfirm_dmarc_report_ser.Connection.Mails.{make_mail, process}
use comfirm_dmarc_report_ser.Data.{Hdr, Mail, header_max_len, body_max_len}
use comfirm_dmarc_report_ser.Queue.{Ref}
use comfirm_dmarc_report_ser.Queue.Inv.{IsValid, pushed}
use comfirm_dmarc_report_ser.Queue.Refine.{enqueue-room}
use comfirm_dmarc_report_ser.Request.{Request}
use comfirm_dmarc_report_ser.Request.Headers.{parse_data}
use comfirm_dmarc_report_ser.Request.Headers.Print.{Field, mail_text, AllFields, AllHdrs, NoFold}
use comfirm_dmarc_report_ser.Request.Headers.Parse.{read, read_all, parse_data-mail_text}

-- `request_parse_data` leaves the rest of the request alone.
pub parse_data-keeps :
    (stale : Bytes) (req req' : Request)
    → parse_data stale req ≡ ok req'
    → (req'.quit ≡ req.quit) × (req'.in_data ≡ req.in_data)
unfolding parse_data
parse_data-keeps stale req req' e = ground arith

length-read_all : (n : ℕ) (hs : List Hdr) → length (read_all n hs) ≤ length hs
length-read_all zero hs = omega arith
length-read_all (suc n) [] = omega arith
length-read_all (suc n) (h ∷ hs) = omega (arith, length-read_all n hs)

read_all-take :
    (n : ℕ) (hs xs : List Hdr) → n ≤ length hs → read_all n (take n hs ++ xs) ≡ read_all n hs
read_all-take zero hs xs h = refl
read_all-take (suc n) [] xs h = absurd (omega arith)
read_all-take (suc n) (x ∷ hs) xs h = ap (◌∷◌ (read x)) (read_all-take n hs xs (omega arith))

-- The mail made of a parsed request whose body fits.
pub mail_of : Request → Bytes → Mail → Mail
mail_of req b memory = record {
  headers = take req.header_count req.headers ++ drop req.header_count memory.headers;
  header_count = req.header_count;
  body = b ++ 0 ∷ drop (length b + 1) memory.body;
}

make_mail-body :
    (req : Request) (b : Bytes) (memory : Mail)
    → req.body ≡ some b
    → length b < body_max_len
    → req.header_count ≤ header_max_len
    → make_mail req memory ≡ ok (mail_of req b memory)
unfolding make_mail mail_of
make_mail-body req b memory e short few = ground arith

mail_text-append : (fs : List Field) (t x : Bytes) → mail_text fs t ++ x ≡ mail_text fs (t ++ x)
mail_text-append [] t x = refl
mail_text-append (f ∷ fs) t x = simp (append_assoc, mail_text-append fs t x)

-- The data of a request that received a whole mail.
abbrev pub received_text : List Field → Bytes → Bytes
received_text fs body = mail_text fs body ++ 0 ∷ codes "\n.\r\n"

-- What is queued for a mail with these fields and this body.
pub record Holds (m : Mail) (fs : List Field) (body : Bytes) : Type 0 where
  pub count : m.header_count ≡ length fs
  pub fields : read_all m.header_count m.headers ≡ fs
  pub text : c_string m.body ≡ body

-- The tail of the data, behind the empty line.
abbrev tail_of : Bytes → Bytes
tail_of body = body ++ 0 ∷ codes "\n.\r\n"

parse_received :
    (stale : Bytes) (f : Field) (fs : List Field) (body : Bytes) (req : Request)
    → AllFields (f ∷ fs)
    → length (f ∷ fs) ≤ header_max_len
    → length req.headers ≡ header_max_len
    → AllHdrs req.headers
    → NoFold body
    → req.text ≡ received_text (f ∷ fs) body
    → (req' : Request) × (parse_data stale req ≡ ok req')
      × (req'.header_count ≡ length (f ∷ fs))
      × (read_all req'.header_count req'.headers ≡ f ∷ fs)
      × (req'.body ≡ some (tail_of body))
parse_received stale f fs [] req v few full arrays k e =
    parse_data-mail_text stale f fs 0 (codes "\n.\r\n") req v few full arrays (omega arith)
      (e ∙ mail_text-append (f ∷ fs) [] (0 ∷ codes "\n.\r\n"))
parse_received stale f fs (c ∷ cs) req v few full arrays k e =
    parse_data-mail_text stale f fs c (cs ++ 0 ∷ codes "\n.\r\n") req v few full arrays k
      (e ∙ mail_text-append (f ∷ fs) (c ∷ cs) (0 ∷ codes "\n.\r\n"))

mail_of-Holds :
    (req : Request) (body : Bytes) (memory : Mail) (fs : List Field)
    → NoNul body
    → req.header_count ≡ length fs
    → read_all req.header_count req.headers ≡ fs
    → Holds (mail_of req (tail_of body) memory) fs body
unfolding mail_of
mail_of-Holds req body memory fs clean counted fields = record {
  count = counted;
  fields = read_all-take req.header_count req.headers _ enough ∙ fields;
  text = ap c_string (append_assoc body (0 ∷ codes "\n.\r\n") _) ∙ c_string-terminated body _ clean;
}
  where
    enough : req.header_count ≤ length req.headers
    enough = omega (
      arith,
      length-read_all req.header_count req.headers,
      ap (λ (xs : List Field). length xs) fields,
    )

-- Processing such a request queues its mail behind those that wait.
pub process-queued :
    (stale : Bytes) (memory : Mail) (req : Request) (q : Ref) (f : Field) (fs : List Field)
    (body : Bytes)
    → AllFields (f ∷ fs)
    → length (f ∷ fs) ≤ header_max_len
    → length req.headers ≡ header_max_len
    → AllHdrs req.headers
    → NoFold body
    → NoNul body
    → length body + 5 < body_max_len
    → req.text ≡ received_text (f ∷ fs) body
    → IsValid q
    → 0 < q.sem
    → q.shared.message_count < q.shared.message_max_count
    → (req' : Request) × (m : Mail) × (process stale memory req (some q)
        ≡ ok (req', some (pushed q m)))
      × Holds m (f ∷ fs) body
      × (req'.quit ≡ req.quit)
      × (req'.in_data ≡ req.in_data)
unfolding process
process-queued stale memory req q f fs body v few full arrays k clean short e valid free room =
    let (req', parsed, counted, fields, has_body) =
      parse_received stale f fs body req v few full arrays k e in
    let (quit, in_data) = parse_data-keeps stale req req' parsed in
    let m = mail_of req' (tail_of body) memory in
    (
      req',
      m,
      rw parsed (
          rw (lt→ltb 0 req'.header_count (omega arith)) (
            rw
              (make_mail-body req' (tail_of body) memory has_body
                (omega (arith, length-append body (0 ∷ codes "\n.\r\n"))) (omega arith))
              (rw (enqueue-room valid free m room)))),
      mail_of-Holds req' body memory (f ∷ fs) clean counted fields,
      quit,
      in_data,
    )

-- ===== src/Request/Commands/Collect.antt =====
-- The text after DATA: it is collected byte by byte up to the line with a single dot, however the
-- network splits it.
use comfirm_dmarc_report_ser.Common.{
  ℕ, ◌+◌, ◌-◌, ◌≤◌, ◌<◌, ◌≡◌, refl, sym, ap, ◌∙◌, true, false, [], ◌∷◌, ◌++◌, arith, length,
  length-append, append_assoc, append-nil, set, Bytes, codes, drop-append,
}
use comfirm_dmarc_report_ser.Common.Outcome.{ok}
use comfirm_dmarc_report_ser.Request.{Request, data_len}
use comfirm_dmarc_report_ser.Request.Commands.{
  Parse, parse_at, store, grow, ends_data, end_of_data, scan, parse_commands,
}
use comfirm_dmarc_report_ser.Response
use comfirm_dmarc_report_ser.Response.{Response}

-- After none of the bytes `t`, stored behind `text`, does the data end.
abbrev pub Quiet : Bytes → Bytes → Type 0
Quiet text [] = Unit
Quiet text (c ∷ t) = (ends_data (text ++ c ∷ []) ≡ false) × Quiet (text ++ c ∷ []) t

abbrev pub stored : Request → ℕ → Request
stored req c = record (grow req) { text = req.text ++ c ∷ [] }

abbrev pub store_all : Request → Bytes → Request
store_all req [] = req
store_all req (c ∷ t) = store_all (stored req c) t

pub text-store_all : (req : Request) (t : Bytes) → (store_all req t).text ≡ req.text ++ t
text-store_all req [] = sym (append-nil req.text)
text-store_all req (c ∷ t) = text-store_all (stored req c) t ∙ append_assoc req.text (c ∷ []) t

-- Storing leaves the mode and the headers alone.
pub store_all-in_data : (req : Request) (t : Bytes) → (store_all req t).in_data ≡ req.in_data
unfolding grow
store_all-in_data req [] = refl
store_all-in_data req (c ∷ t) = store_all-in_data (stored req c) t ∙ ground arith

pub store_all-headers : (req : Request) (t : Bytes) → (store_all req t).headers ≡ req.headers
unfolding grow
store_all-headers req [] = refl
store_all-headers req (c ∷ t) = store_all-headers (stored req c) t ∙ ground arith

store-quiet :
    (limit : ℕ) (req : Request) (resp : Response) (c : ℕ)
    → data_len req < limit
    → ends_data (req.text ++ c ∷ []) ≡ false
    → store limit req resp c ≡ ok (parse_at (stored req c) resp)
unfolding store
store-quiet limit req resp c room q = ground arith

-- The bytes `t` are stored, and the loop goes on behind them.
pub scan-Quiet :
    (limit : ℕ) (stale t rest : Bytes) (req : Request) (resp : Response)
    → req.in_data ≡ true
    → data_len req + length t ≤ limit
    → Quiet req.text t
    → scan limit stale (t ++ rest) 0 req resp ≡ scan limit stale rest 0 (store_all req t) resp
unfolding scan
scan-Quiet limit stale [] rest req resp inside room q = refl
scan-Quiet limit stale (c ∷ t) rest req resp inside room q =
    simp (inside, store-quiet limit req resp c (omega arith) q.0)
      (scan-Quiet limit stale t rest (stored req c) resp (store_all-in_data req (c ∷ []) ∙ inside)
        (omega (arith, length-append req.text (c ∷ []))) q.1)

-- However a client's data is split over two reads, the outcome is the same: where the request is
-- inside DATA, and the first part `a` holds no end of the data and fits in the configured size,
-- reading `a` and then `b` is reading both at once.
pub split_reads :
    (limit : ℕ) (stale stale' a b : Bytes) (req : Request) (resp : Response)
    → req.in_data ≡ true
    → data_len req + length a ≤ limit
    → Quiet req.text a
    → (first : Parse) × (parse_commands limit stale' a req resp ≡ ok first)
      × (first.req.text ≡ req.text ++ a)
      × (parse_commands limit stale (a ++ b) req resp
          ≡ parse_commands limit stale b first.req first.resp)
unfolding scan
split_reads limit stale stale' a b req resp inside room q = (
  parse_at (store_all req a) resp,
  ap (λ (t : Bytes). scan limit stale' t 0 req resp) (sym (append-nil a))
      ∙ scan-Quiet limit stale' a [] req resp inside room q,
  text-store_all req a,
  scan-Quiet limit stale a b req resp inside room q,
)

-- The request once the end of the data is reached: the five bytes lose their first to a NUL.
ended : Request → ℕ → Request
ended req c = record (stored req c) {
  text = set (req.text ++ c ∷ []) (length (req.text ++ c ∷ []) - 5) 0;
  in_data = false;
  process = true;
  quit = true;
}

store-end :
    (limit : ℕ) (req : Request) (resp : Response) (c : ℕ)
    → data_len req < limit
    → ends_data (req.text ++ c ∷ []) ≡ true
    → store limit req resp c
      ≡ ok (parse_at (ended req c) (Response.appended resp (codes "250 Ok: queued as nada\r\n")))
unfolding store ended
store-end limit req resp c room e =
    ground (arith, Response.append-ok resp (codes "250 Ok: queued as nada\r\n"))

closing_at : (text : Bytes) → length (text ++ end_of_data) - 5 ≡ length text
closing_at text = omega (arith, length-append text end_of_data)

ends_data-end_of_data : (text : Bytes) → ends_data (text ++ end_of_data) ≡ true
ends_data-end_of_data text =
    let at : length (text ++ end_of_data) - 5 ≡ length text = closing_at text in
    rw at (rw drop-append (ground (arith, length-append text end_of_data)))

set-end_of_data :
    (text : Bytes) → set (text ++ end_of_data) (length text) 0 ≡ text ++ 0 ∷ codes "\n.\r\n"
set-end_of_data [] = refl
set-end_of_data (c ∷ t) = ap (◌∷◌ c) (set-end_of_data t)

-- The last byte, after the rest of the closing line.
module _ (limit : ℕ) (stale : Bytes) (req : Request) (resp : Response) (text : Bytes) where
  scan_last :
      req.in_data ≡ true
      → data_len req < limit
      → req.text ≡ text ++ codes "\r\n.\r"
      → scan limit stale (b'\n' ∷ []) 0 req resp
        ≡ ok (
            parse_at
              (ended req b'\n')
              (Response.appended resp (codes "250 Ok: queued as nada\r\n")))
  unfolding scan
  scan_last inside room e = simp (inside, store-end limit req resp b'\n' room closes)
    where
      closes : ends_data (req.text ++ b'\n' ∷ []) ≡ true
      closes = rw e (rw append_assoc (ends_data-end_of_data text))

  text-ended :
      req.text ≡ text ++ codes "\r\n.\r" → (ended req b'\n').text ≡ text ++ 0 ∷ codes "\n.\r\n"
  unfolding ended
  text-ended e = rw e (rw append_assoc (rw (closing_at text) (set-end_of_data text)))

-- The bytes `u` and the last one, where all but these is stored already.
pub receive_rest :
    (limit : ℕ) (stale text u : Bytes) (req : Request) (resp : Response)
    → req.in_data ≡ true
    → req.text ++ u ≡ text ++ codes "\r\n.\r"
    → length text + 5 ≤ limit
    → Quiet req.text u
    → (p : Parse) × (parse_commands limit stale (u ++ b'\n' ∷ []) req resp ≡ ok p)
      × (p.too_big ≡ false)
      × (p.req.text ≡ text ++ 0 ∷ codes "\n.\r\n")
      × (p.req.headers ≡ req.headers)
      × (p.req.in_data ≡ false)
      × (p.req.process ≡ true)
      × (p.req.quit ≡ true)
      × (p.resp.text ≡ resp.text ++ codes "250 Ok: queued as nada\r\n")
unfolding ended
receive_rest limit stale text u req resp inside whole room q =
    let last = store_all req u in
    let last_text : last.text ≡ text ++ codes "\r\n.\r" = text-store_all req u ∙ whole in
    let sizes : data_len req + length u ≡ length text + 4 = omega (
      arith,
      ap (λ (t : Bytes). length t) whole,
      length-append req.text u,
      length-append text (codes "\r\n.\r"),
    ) in
    (
      parse_at (ended last b'\n') (Response.appended resp (codes "250 Ok: queued as nada\r\n")),
      scan-Quiet limit stale u (b'\n' ∷ []) req resp inside (omega arith) q
          ∙ scan_last limit stale last resp text (store_all-in_data req u ∙ inside)
              (omega (
                arith,
                ap (λ (t : Bytes). length t) last_text,
                length-append text (codes "\r\n.\r"),
              ))
              last_text,
      refl,
      text-ended limit stale last resp text last_text,
      unfold grow in ground (arith, store_all-headers req u),
      refl,
      refl,
      refl,
      refl,
    )

-- A mail text that is followed by the line with a single dot is stored whole, with that line cut
-- short by a NUL; the request leaves the data, is to be processed and then closed, and the reply is
-- one line more. The text is read in one go, holds no earlier end of the data and fits, with the
-- five closing bytes, in the configured size.
pub receive_mail :
    (limit : ℕ) (stale text : Bytes) (req : Request) (resp : Response)
    → req.in_data ≡ true
    → req.text ≡ []
    → length text + 5 ≤ limit
    → Quiet [] (text ++ codes "\r\n.\r")
    → (p : Parse) × (parse_commands limit stale (text ++ end_of_data) req resp ≡ ok p)
      × (p.too_big ≡ false)
      × (p.req.text ≡ text ++ 0 ∷ codes "\n.\r\n")
      × (p.req.headers ≡ req.headers)
      × (p.req.in_data ≡ false)
      × (p.req.process ≡ true)
      × (p.req.quit ≡ true)
      × (p.resp.text ≡ resp.text ++ codes "250 Ok: queued as nada\r\n")
receive_mail limit stale text req resp inside empty room q =
    let r =
      receive_rest limit stale text (text ++ codes "\r\n.\r") req resp inside
        (ap (λ (t : Bytes). t ++ (text ++ codes "\r\n.\r")) empty) room (rw empty q) in
    (
      r.0,
      ap (λ (t : Bytes). scan limit stale t 0 req resp)
            (sym (append_assoc text (codes "\r\n.\r") (b'\n' ∷ [])))
          ∙ r.1,
      r.2,
      r.3,
      r.4,
      r.5,
      r.6,
      r.7,
      r.8,
    )

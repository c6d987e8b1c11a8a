-- ===== src/Connection/Handle/Session.antt =====
-- The event that completes a mail: it is queued, the client gets its reply, and the connection ends.
use comfirm_dmarc_report_ser.Common.{
  ℕ, ◌+◌, ◌≤◌, ◌<◌, ◌≡◌, refl, ap, ◌∙◌, true, false, List, [], ◌∷◌, ◌++◌, none, some, arith, length,
  length-append, append_assoc, sym, Bytes, codes, NoNul,
}
use comfirm_dmarc_report_ser.Common.Outcome.{ok, ◌>>=◌}
use comfirm_dmarc_report_ser.Data.{Mail, header_max_len, body_max_len}
use comfirm_dmarc_report_ser.Connection.{writing, Limits, Io, Chunk, World}
use comfirm_dmarc_report_ser.Connection.Mails.{process}
use comfirm_dmarc_report_ser.Connection.Mails.Queued.{Holds, process-queued}
use comfirm_dmarc_report_ser.Connection.Handle.{
  parse, write, conclude, next_request, finish, hang_up, handle,
}
use comfirm_dmarc_report_ser.Connection.Handle.Inv.{waiting, gone}
use comfirm_dmarc_report_ser.Connection.Handle.Reading.{read-bytes}
use comfirm_dmarc_report_ser.Connection.Send.{send_all-taken, joined, joined-append}
use comfirm_dmarc_report_ser.Queue.{Ref}
use comfirm_dmarc_report_ser.Queue.Inv.{IsValid, pushed}
use comfirm_dmarc_report_ser.Queue.Refine.{contents, contents-pushed}
use comfirm_dmarc_report_ser.Request.{Request}
use comfirm_dmarc_report_ser.Request.Commands.{Parse, end_of_data, parse_commands}
use comfirm_dmarc_report_ser.Request.Commands.Collect.{Quiet, receive_rest}
use comfirm_dmarc_report_ser.Request.Headers.Print.{Field, mail_text, AllFields, AllHdrs, NoFold}
use comfirm_dmarc_report_ser.Response.{Response}

-- What a mail must be for the server to take it: header lines that fit, a body that does not begin
-- with white space, and no line with a single dot but the last.
pub record IsMailText (lim : Limits) (fs : List Field) (body : Bytes) : Type 0 where
  pub fields : AllFields fs
  pub few : length fs ≤ header_max_len
  pub no_fold : NoFold body
  pub clean : NoNul body
  pub short : length body + 5 < body_max_len
  pub fits : length (mail_text fs body) + 5 ≤ lim.data_buffer_size
  pub quiet : Quiet [] (mail_text fs body ++ codes "\r\n.\r")

-- A queue with room for one mail, and its semaphore free.
pub record HasRoom (q : Ref) : Type 0 where
  pub valid : IsValid q
  pub free : 0 < q.sem
  pub room : q.shared.message_count < q.shared.message_max_count

module _ (lim : Limits) (io : Io) (works : (i : ℕ) → io.send_works i ≡ true)
    (size_pos : 0 < lim.write_buffer_size) where
  -- A response to a request that quits: it is sent, and the connection is hung up.
  write-quits :
      (w : World) (req : Request) (resp : Response) (b : Bytes)
      → req.quit ≡ true
      → let w0 : World = record w {
        conn = record {
          request = some req;
          response = some resp;
          status = writing;
          read_buffer = some b;
        };
      } in
        (sent : List Chunk) × ((write lim io w0 >>= λ w3. ok (finish w3.conn.status w3))
          ≡ ok (record (gone w) { sent = w.sent ++ sent }))
        × (joined (w.sent ++ sent) ≡ joined w.sent ++ resp.text)
  unfolding write conclude next_request finish hang_up
  write-quits w req resp b quits =
      let (sent, e, whole) =
        send_all-taken lim.write_buffer_size io.send_works resp.text size_pos works in
      (
        sent,
        rw e (simp quits),
        joined-append w.sent sent ∙ ap (λ (t : Bytes). joined w.sent ++ t) whole,
      )

-- The blocks from CONN_READING on, where the bytes complete a mail.
module _ (lim : Limits) (io : Io) (req : Request) (resp : Response) (b : Bytes) {q : Ref} where
  parse-mail :
      (w : World) (p : Parse) (req' : Request) (q' : Ref)
      → parse_commands lim.data_buffer_size io.stale b req resp ≡ ok p
      → p.too_big ≡ false
      → p.req.process ≡ true
      → w.queue ≡ some q
      → process io.stale_data io.mail_memory p.req (some q) ≡ ok (req', some q')
      → parse lim io (waiting req resp (some b) w)
        ≡ ok (record w {
          conn = record {
            request = some req';
            response = some p.resp;
            status = writing;
            read_buffer = some b;
          };
          queue = some q';
        })
  unfolding parse
  parse-mail w p req' q' scanned small complete has queued =
      simp (scanned, small, complete, has, queued)

-- The event whose bytes `u`, and a line feed behind them, are all that is missing of a mail.
pub handle_rest :
    (lim : Limits) (io : Io) (memory : length io.header_memory ≡ header_max_len) (w : World)
    (req : Request) (resp : Response) (q : Ref) (f : Field) (fs : List Field) (body u : Bytes)
    → ((i : ℕ) → io.send_works i ≡ true)
    → 0 < lim.write_buffer_size
    → 0 < lim.read_buffer_size
    → length req.headers ≡ header_max_len
    → AllHdrs req.headers
    → req.in_data ≡ true
    → req.text ++ u ≡ mail_text (f ∷ fs) body ++ codes "\r\n.\r"
    → Quiet req.text u
    → IsMailText lim (f ∷ fs) body
    → io.received ≡ some (u ++ b'\n' ∷ [])
    → w.queue ≡ some q
    → HasRoom q
    → (w' : World) × (m : Mail) × (handle lim io (waiting req resp none w) ≡ ok w')
      × (w'.queue ≡ some (pushed q m))
      × (contents (pushed q m) ≡ contents q ++ m ∷ [])
      × Holds m (f ∷ fs) body
      × (joined w'.sent ≡ joined w.sent ++ (resp.text ++ codes "250 Ok: queued as nada\r\n"))
      × (w'.conn ≡ (gone w).conn)
      × (w'.hung_up ≡ true)
unfolding handle
handle_rest lim io memory w req resp q f fs body u works write_pos read_pos full arrays inside whole
      quiet t e has r =
    let text = mail_text (f ∷ fs) body in
    let (p, scanned, small, stored, same, out, complete, quits, replied) =
      receive_rest lim.data_buffer_size io.stale text u req resp inside whole t.fits quiet in
    let (req', m, queued, holds, quit', in_data') =
      process-queued io.stale_data io.mail_memory p.req q f fs body t.fields t.few (rw same full)
        (rw same arrays) t.no_fold t.clean t.short stored r.valid r.free r.room in
    let w1 = record w { queue = some (pushed q m) } in
    let (sent, written, joins) =
      write-quits lim io works write_pos w1 req' p.resp (u ++ b'\n' ∷ []) (quit' ∙ quits) in
    (
      record (gone w) { queue = some (pushed q m); sent = w.sent ++ sent },
      m,
      rw (read-bytes lim io memory req resp w read_pos (u ++ b'\n' ∷ []) some_bytes e) (
          rw
            (parse-mail lim io req resp (u ++ b'\n' ∷ []) w p req' (pushed q m) scanned small
              complete has queued)
            written),
      refl,
      contents-pushed m r.valid r.room,
      holds,
      joins ∙ ap (λ (b : Bytes). joined w.sent ++ b) replied,
      refl,
      refl,
    )
  where
    some_bytes : 0 < length (u ++ b'\n' ∷ [])
    some_bytes = omega (arith, length-append u (b'\n' ∷ []))

-- A connection waits inside DATA, nothing of the data has come yet, its headers are whole, both
-- buffers hold at least one byte, the queue is valid, free and has room, and every `send` works. If
-- the client then sends, in one piece, the whole text of a mail and the closing line: exactly that
-- mail is queued behind the others, the last reply is handed to `send`, and the connection is hung
-- up and freed. The mail has one to twenty header lines that fit in their arrays, and a body that
-- does not begin with white space, has no NUL, and fits in the queue and in the configured size;
-- before the closing line no line is a single dot.
pub handle_mail :
    (lim : Limits) (io : Io) (memory : length io.header_memory ≡ header_max_len) (w : World)
    (req : Request) (resp : Response) (q : Ref) (f : Field) (fs : List Field) (body : Bytes)
    → ((i : ℕ) → io.send_works i ≡ true)
    → 0 < lim.write_buffer_size
    → 0 < lim.read_buffer_size
    → length req.headers ≡ header_max_len
    → AllHdrs req.headers
    → req.in_data ≡ true
    → req.text ≡ []
    → IsMailText lim (f ∷ fs) body
    → io.received ≡ some (mail_text (f ∷ fs) body ++ end_of_data)
    → w.queue ≡ some q
    → HasRoom q
    → (w' : World) × (m : Mail) × (handle lim io (waiting req resp none w) ≡ ok w')
      × (w'.queue ≡ some (pushed q m))
      × (contents (pushed q m) ≡ contents q ++ m ∷ [])
      × Holds m (f ∷ fs) body
      × (joined w'.sent ≡ joined w.sent ++ (resp.text ++ codes "250 Ok: queued as nada\r\n"))
      × (w'.conn ≡ (gone w).conn)
      × (w'.hung_up ≡ true)
handle_mail lim io memory w req resp q f fs body works write_pos read_pos full arrays inside empty t
      e has r =
    let u = mail_text (f ∷ fs) body ++ codes "\r\n.\r" in
    handle_rest lim io memory w req resp q f fs body u works write_pos read_pos full arrays inside
      (ap (λ (t : Bytes). t ++ u) empty) (rw empty t.quiet) t
      (e ∙ ap some (sym (append_assoc (mail_text (f ∷ fs) body) (codes "\r\n.\r") (b'\n' ∷ []))))
      has r

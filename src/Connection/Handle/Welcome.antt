-- ===== src/Connection/Handle/Welcome.antt =====
-- The event that opens a connection: the welcome message, and what follows it.
use comfirm_dmarc_report_ser.Common.{
  ℕ, ◌<◌, ◌≡◌, refl, ◌∙◌, true, false, List, [], ◌++◌, append_assoc, Option, none, some, codes,
}
use comfirm_dmarc_report_ser.Common.Outcome.{ok}
use comfirm_dmarc_report_ser.Connection.{writing, Limits, Io, Chunk, World, start}
use comfirm_dmarc_report_ser.Connection.Handle.{
  greet, write, conclude, next_request, finish, handle,
}
use comfirm_dmarc_report_ser.Connection.Handle.Inv.{waiting}
use comfirm_dmarc_report_ser.Connection.Send.{send_all-taken, joined}
use comfirm_dmarc_report_ser.Request
use comfirm_dmarc_report_ser.Data.{Hdr}
use comfirm_dmarc_report_ser.Queue.{Ref}
use comfirm_dmarc_report_ser.Request.{Request}
use comfirm_dmarc_report_ser.Response
use comfirm_dmarc_report_ser.Response.{Response, append_in_bounds}

-- The welcome message, as one response.
pub greet-text :
    (lim : Limits) (io : Io) (w : World) (resp : Response)
    → w.conn.response ≡ some resp
    → (r : Response) × (greet lim io w
        ≡ ok (record w { conn = record (w.conn) { response = some r; status = writing } }))
      × (r.text
          ≡ ((((resp.text ++ codes "220 ") ++ lim.hostname) ++ codes " SMTP ") ++ lim.server_name)
            ++ codes "\r\n")
unfolding greet
greet-text lim io w resp h =
    let (r1, e1, t1, _) = append_in_bounds resp (codes "220 ") in
    let (r2, e2, t2, _) = append_in_bounds r1 lim.hostname in
    let (r3, e3, t3, _) = append_in_bounds r2 (codes " SMTP ") in
    let (r4, e4, t4, _) = append_in_bounds r3 lim.server_name in
    let (r5, e5, t5, _) = append_in_bounds r4 (codes "\r\n") in
    (r5, simp (h, e1, e2, e3, e4, e5), simp (t5, t4, t3, t2, t1))

-- The first event on a new connection, where every `send` works and the write buffer holds at least
-- one byte: the welcome message with the names of the configuration is handed to `send`, and the
-- connection waits for the first command with an empty request and an empty response.
pub handle_welcome :
    (lim : Limits) (io : Io) (memory : List Hdr) (queue : Option Ref)
    → ((i : ℕ) → io.send_works i ≡ true)
    → 0 < lim.write_buffer_size
    → let w : World = record { conn = start memory; queue = queue; sent = []; hung_up = false } in
      (sent : List Chunk) × (handle lim io w
        ≡ ok
            (record (waiting (Request.init io.header_memory) Response.init none w) { sent = sent }))
      × (joined sent
          ≡ codes "220 " ++ lim.hostname ++ codes " SMTP " ++ lim.server_name ++ codes "\r\n")
unfolding handle write conclude next_request finish start Request.init Response.init
handle_welcome lim io memory queue works size_pos =
    let w : World = record { conn = start memory; queue = queue; sent = []; hung_up = false } in
    let (r, e, t) = greet-text lim io w Response.init refl in
    let (sent, taken, whole) =
      send_all-taken lim.write_buffer_size io.send_works r.text size_pos works in
    (sent, simp (e, taken), whole ∙ t ∙ simp append_assoc)

-- ===== src/Worker/Chat.antt =====
-- An event whose bytes end neither the connection nor a mail.
use comfirm_dmarc_report_ser.Common.{
  ℕ, ◌<◌, ◌≡◌, true, false, List, ◌++◌, none, some, if◌then◌else◌, length, Bytes,
}
use comfirm_dmarc_report_ser.Common.Outcome.{ok}
use comfirm_dmarc_report_ser.Connection.{Limits, Io, Chunk, World}
use comfirm_dmarc_report_ser.Connection.Handle.{
  parse, write, conclude, next_request, finish, handle,
}
use comfirm_dmarc_report_ser.Connection.Handle.Inv.{waiting}
use comfirm_dmarc_report_ser.Connection.Handle.Reading.{read-bytes}
use comfirm_dmarc_report_ser.Connection.Send.{send_all-taken, joined}
use comfirm_dmarc_report_ser.Request
use comfirm_dmarc_report_ser.Request.{Request}
use comfirm_dmarc_report_ser.Request.Commands.{Parse, parse_commands}
use comfirm_dmarc_report_ser.Response
use comfirm_dmarc_report_ser.Response.{Response}
use comfirm_dmarc_report_ser.Data.{header_max_len}

-- The request with which the connection goes on.
abbrev pub going_on : Request → Io → Request
going_on req io = if req.in_data then req else Request.init io.header_memory

-- A parse after which the connection stays open and no mail is complete.
pub record Stays (p : Parse) : Type 0 where
  pub small : p.too_big ≡ false
  pub incomplete : p.req.process ≡ false
  pub open_still : p.req.quit ≡ false

pub handle_chat :
    (lim : Limits) (io : Io) (memory : length io.header_memory ≡ header_max_len) (w : World)
    (req : Request) (resp : Response) (b : Bytes) (p : Parse)
    → ((i : ℕ) → io.send_works i ≡ true)
    → 0 < lim.write_buffer_size
    → 0 < lim.read_buffer_size
    → 0 < length b
    → io.received ≡ some b
    → parse_commands lim.data_buffer_size io.stale b req resp ≡ ok p
    → Stays p
    → (sent : List Chunk) × (handle lim io (waiting req resp none w)
        ≡ ok (record (waiting (going_on p.req io) Response.init none w) { sent = w.sent ++ sent }))
      × (joined sent ≡ p.resp.text)
unfolding handle parse write conclude next_request finish
handle_chat lim io memory w req resp b p works write_pos read_pos some_bytes e scanned s =
    let (sent, taken, whole) =
      send_all-taken lim.write_buffer_size io.send_works p.resp.text write_pos works in
    (
      sent,
      rw (read-bytes lim io memory req resp w read_pos b some_bytes e)
          (simp (scanned, s.small, s.incomplete, taken, s.open_still)),
      whole,
    )

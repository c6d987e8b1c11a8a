-- ===== src/Connection/Handle.antt =====
-- `connection_handle`: one event on a connection, block by block.
pub mod Inv
pub mod Reading
pub mod Session
pub mod Welcome
use comfirm_dmarc_report_ser.Common.{
  ℕ, zero, suc, ◌+◌, ◌-◌, Bool, true, false, not, ◌&&◌, List, [], ◌∷◌, ◌++◌, Option, none, some,
  ltb, leb, ◌==◌, if◌then◌else◌, length, Bytes, codes,
}
use comfirm_dmarc_report_ser.Common.Outcome.{Outcome, ok, fault, null_deref, blocked, ◌>>=◌}
use comfirm_dmarc_report_ser.Connection.{
  Connection, Status, started, reading, failed, writing, closed, inactive, Limits, Io, Chunk, World,
  buffered, buffer_len, reset,
}
use comfirm_dmarc_report_ser.Connection.Mails.{process}
use comfirm_dmarc_report_ser.Connection.Send.{send_all}
use comfirm_dmarc_report_ser.Queue.{Ref}
use comfirm_dmarc_report_ser.Request
use comfirm_dmarc_report_ser.Request.{Request}
use comfirm_dmarc_report_ser.Request.Commands.{parse_commands}
use comfirm_dmarc_report_ser.Response
use comfirm_dmarc_report_ser.Response.{Response}

-- A pointer that the code follows without asking.
abbrev pub deref {ℓ} : {A : Type ℓ} → Option A → Outcome A
deref none = fault null_deref
deref (some a) = ok a

abbrev pub set_status : World → Status → World
set_status w s = record w { conn = record (w.conn) { status = s } }

abbrev pub is_failed : Status → Bool
is_failed failed = true
is_failed _ = false

module _ (lim : Limits) (io : Io) where
  -- CONN_STARTED: the welcome message.
  unfoldable pub greet : World → Outcome World
  greet w = do
    r0 ← deref w.conn.response
    r1 ← Response.append r0 (codes "220 ")
    r2 ← Response.append r1 lim.hostname
    r3 ← Response.append r2 (codes " SMTP ")
    r4 ← Response.append r3 lim.server_name
    r5 ← Response.append r4 (codes "\r\n")
    ok (record w { conn = record (w.conn) { response = some r5; status = writing } })

  -- The first half of CONN_READING: what was received goes behind what is there.
  unfoldable pub receive : World → World
  receive w =
      let start = record (w.conn) { read_buffer = some (buffered w.conn) } in
      if ltb (buffer_len w.conn) lim.read_buffer_size
      then elim io.received [
        | none ↦ record w { conn = record start { status = failed } }
        | some b ↦ record w { conn = record start { read_buffer = some (buffered w.conn ++ b) } }
      ]
      else record w { conn = record start { status = failed } }

  -- The second half: the bytes are parsed, and a complete mail is queued. A mail without headers
  -- gets CONN_ERROR first, which CONN_WRITING replaces.
  unfoldable pub parse : World → Outcome World
  parse w = do
    req ← deref w.conn.request
    resp ← deref w.conn.response
    p ← parse_commands lim.data_buffer_size io.stale (buffered w.conn) req resp
    if p.too_big
        then ok (record w {
          conn = record (w.conn) { request = some p.req; response = some p.resp; status = failed };
        })
        else if p.req.process
        then (process io.stale_data io.mail_memory p.req w.queue >>= λ (req', queue').
            ok (record w {
              conn = record (w.conn) {
                request = some req';
                response = some p.resp;
                status = writing;
              };
              queue = queue';
            }))
        else ok (record w {
          conn = record (w.conn) { request = some p.req; response = some p.resp; status = writing };
        })

  -- CONN_READING
  unfoldable pub read : World → Outcome World
  unfolding receive parse
  read w =
      let w' = receive w in
      if ltb 0 (buffer_len w'.conn) && not (is_failed w'.conn.status) then parse w' else ok w'

  -- What follows a response that was sent.
  unfoldable pub next_request : World → Request → World
  unfolding Request.init Response.init
  next_request w req = record w {
    conn = record {
      status = if req.quit then closed else reading;
      request = some (if req.in_data then req else Request.init io.header_memory);
      response = some Response.init;
      read_buffer = none;
    };
  }

  -- After the calls of `send`. A loop that sends no byte at a time never ends.
  unfoldable pub conclude : World → Option (List Chunk × Bool) → Outcome World
  unfolding next_request
  conclude w none = fault blocked
  conclude w (some (sent, true)) =
      deref w.conn.request >>= λ req. ok (next_request (record w { sent = w.sent ++ sent }) req)
  conclude w (some (sent, false)) = ok (set_status (record w { sent = w.sent ++ sent }) failed)

  -- CONN_WRITING
  unfoldable pub write : World → Outcome World
  unfolding conclude
  write w = deref w.conn.response >>= λ resp.
      conclude w (send_all lim.write_buffer_size io.send_works resp.text)

-- CONN_CLOSED: the descriptor leaves the event list and is closed.
unfoldable pub hang_up : World → World
hang_up w = set_status (record w { hung_up = true }) inactive

-- CONN_ERROR, CONN_CLOSED and CONN_INACTIVE, each of which leads to the next.
unfoldable pub finish : Status → World → World
unfolding reset hang_up
finish failed w = let w' = hang_up w in record w' { conn = reset w'.conn }
finish closed w = let w' = hang_up w in record w' { conn = reset w'.conn }
finish inactive w = record w { conn = reset w.conn }
finish _ w = w

module _ (lim : Limits) (io : Io) where
  -- Each block runs if the status is its own when it is reached.
  abbrev pub if_started : Status → World → Outcome World
  if_started started w = greet lim io w
  if_started _ w = ok w

  abbrev pub if_reading : Status → World → Outcome World
  if_reading reading w = read lim io w
  if_reading _ w = ok w

  abbrev pub if_writing : Status → World → Outcome World
  if_writing writing w = write lim io w
  if_writing _ w = ok w

  -- `connection_handle`
  unfoldable pub handle : World → Outcome World
  handle w = do
    w1 ← if_started w.conn.status w
    w2 ← if_reading w1.conn.status w1
    w3 ← if_writing w2.conn.status w2
    ok (finish w3.conn.status w3)

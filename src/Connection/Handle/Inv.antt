-- ===== src/Connection/Handle/Inv.antt =====
-- The states in which a connection may be handled, and that an event leads to one of them again.
use comfirm_dmarc_report_ser.Common.{
  ◌≤◌, ◌<◌, ◌≡◌, refl, Bool, true, false, List, [], ◌++◌, Option, none, some, arith, length, Bytes,
  inl, inr, Bool-cases, if◌then◌else◌,
}
use comfirm_dmarc_report_ser.Common.Outcome.{Outcome, ok, fault, ◌>>=◌}
use comfirm_dmarc_report_ser.Data.{header_max_len}
use comfirm_dmarc_report_ser.Connection.{
  Connection, Status, reading, writing, inactive, Limits, Io, Chunk, World, buffered, reset,
}
use comfirm_dmarc_report_ser.Connection.Handle.{
  next_request, conclude, write, if_writing, hang_up, finish,
}
use comfirm_dmarc_report_ser.Connection.Send.{send_all_lem}
use comfirm_dmarc_report_ser.Queue.{Ref}
use comfirm_dmarc_report_ser.Request
use comfirm_dmarc_report_ser.Request.{Request, data_len}
use comfirm_dmarc_report_ser.Request.Commands.{Parse}
use comfirm_dmarc_report_ser.Response
use comfirm_dmarc_report_ser.Response.{Response}

-- A request that may be parsed further.
pub record IsRequest (lim : Limits) (req : Request) : Type 0 where
  pub headers : length req.headers ≡ header_max_len
  pub bounded : data_len req ≤ lim.data_buffer_size

-- A connection with a request and a response.
pub record Live (lim : Limits) (c : Connection) : Type 0 where
  pub req : Request
  pub resp : Response
  pub has_request : c.request ≡ some req
  pub has_response : c.response ≡ some resp
  pub request_ok : IsRequest lim req

-- After an event a connection waits for the next one, with nothing left in its buffer, or its
-- descriptor is closed and everything that it held is freed.
abbrev pub Settled : Limits → Status → World → Type 0
Settled lim reading w = Live lim w.conn × (buffered w.conn ≡ [])
Settled lim inactive w = (w.conn ≡ reset w.conn) × (w.hung_up ≡ true)
Settled lim _ w = ⊥

-- A connection that waits for bytes.
abbrev pub waiting : Request → Response → Option Bytes → World → World
waiting req resp buffer w = record w {
  conn = record {
    request = some req;
    response = some resp;
    status = reading;
    read_buffer = buffer;
  };
}

-- A connection that was hung up.
abbrev pub gone : World → World
gone w = record w {
  conn = record { request = none; response = none; status = inactive; read_buffer = none };
  hung_up = true;
}

-- The connection once bytes are read and parsed.
abbrev pub parsed : Parse → Bytes → World → Status → World
parsed p b w s = record w {
  conn = record { request = some p.req; response = some p.resp; status = s; read_buffer = some b };
}

module _ (lim : Limits) (io : Io) (memory : length io.header_memory ≡ header_max_len) where
  renewed : Request → Request
  renewed req = if req.in_data then req else Request.init io.header_memory

  renewed-IsRequest : (req : Request) → IsRequest lim req → IsRequest lim (renewed req)
  unfolding renewed Request.init
  renewed-IsRequest req v = elim (Bool-cases req.in_data) [
    | inl inside ↦ simp inside v
    | inr outside ↦ simp outside (record { headers = memory; bounded = omega arith })
  ]

  -- Settled, with this queue.
  abbrev pub After : Option Ref → World → Type 0
  After q w = Settled lim w.conn.status w × (w.queue ≡ q)

  next_request-Settled :
      (w : World) (req : Request)
      → IsRequest lim req
      → let w' = next_request lim io w req in After w.queue (finish w'.conn.status w')
  unfolding next_request finish hang_up reset renewed
  next_request-Settled w req v = elim (Bool-cases req.quit) [
    | inl quits ↦ simp quits ((refl, refl), refl)
    | inr stays ↦ simp stays (
      (
        record {
          req = renewed req;
          resp = Response.init;
          has_request = refl;
          has_response = refl;
          request_ok = renewed-IsRequest req v;
        },
        refl,
      ),
      refl,
    )
  ]

  -- The last blocks, on the outcome of CONN_WRITING.
  abbrev pub Finishes : (World → Type 0) → Outcome World → Type 0
  Finishes P (ok w) = P (finish w.conn.status w)
  Finishes P (fault _) = ⊥

  pub write-Settled :
      (w : World)
      → 0 < lim.write_buffer_size
      → Live lim w.conn
      → Finishes (After w.queue) (write lim io w)
  unfolding write finish hang_up reset
  write-Settled w size_pos live =
      let ((sent, taken), e, whole, within, all_taken) =
        send_all_lem lim.write_buffer_size io.send_works live.resp.text size_pos in
      simp (live.has_response, e) (after sent taken)
    where
      after :
          (sent : List Chunk) (taken : Bool)
          → Finishes (After w.queue) (conclude lim io w (some (sent, taken)))
      after sent true =
          simp live.has_request
            (next_request-Settled (record w { sent = w.sent ++ sent }) live.req live.request_ok)
      after sent false = ((refl, refl), refl)

  -- The blocks from CONN_WRITING on.
  abbrev pub rest_of : World → Outcome World
  rest_of w = if_writing lim io w.conn.status w >>= λ w3. ok (finish w3.conn.status w3)

  Finishes-ok :
      (P : World → Type 0) (o : Outcome World)
      → Finishes P o
      → (w' : World) × ((o >>= λ w3. ok (finish w3.conn.status w3)) ≡ ok w') × P w'
  Finishes-ok P (ok w) h = (_, refl, h)
  Finishes-ok P (fault _) h = elim h [ ]

  pub rest-Settled :
      (w : World)
      → w.conn.status ≡ writing
      → 0 < lim.write_buffer_size
      → Live lim w.conn
      → (w' : World) × (rest_of w ≡ ok w') × After w.queue w'
  rest-Settled w s size_pos live =
      simp s (Finishes-ok (After w.queue) (write lim io w) (write-Settled w size_pos live))

-- ===== src/Connection.antt =====
-- A connection and the handling of one event on it: src/connection.c.
pub mod Send
pub mod Mails
pub mod Handle
pub mod Address
use comfirm_dmarc_report_ser.Common.{
  ℕ, Bool, true, false, List, [], Option, none, some, length, Bytes,
}
use comfirm_dmarc_report_ser.Data.{Hdr, Mail}
use comfirm_dmarc_report_ser.Queue.{Ref}
use comfirm_dmarc_report_ser.Request
use comfirm_dmarc_report_ser.Request.{Request}
use comfirm_dmarc_report_ser.Response
use comfirm_dmarc_report_ser.Response.{Response}

-- CONN_STARTED, CONN_READING, CONN_ERROR, CONN_WRITING, CONN_CLOSED, CONN_INACTIVE
pub data Status : Type 0 where
  started reading failed writing closed inactive : Status

-- `connection`. `read_buffer` is NULL, or an array that begins with the `buffer_len` bytes received.
pub record Connection : Type 0 where
  pub request : Option Request
  pub response : Option Response
  pub status : Status
  pub read_buffer : Option Bytes

abbrev pub buffered : Connection → Bytes
buffered c = elim c.read_buffer [ none ↦ [] | some b ↦ b ]

abbrev pub buffer_len : Connection → ℕ
buffer_len c = length (buffered c)

-- What of the configuration a connection uses; the sizes are taken to be no negative numbers.
pub record Limits : Type 0 where
  pub read_buffer_size : ℕ
  pub write_buffer_size : ℕ
  pub data_buffer_size : ℕ
  pub hostname : Bytes
  pub server_name : Bytes

-- What the system does while one event is handled: what `read` gives (`none` is -1), what the read
-- buffer and the data hold behind what was written to them, what `malloc` returns for the headers
-- of a request and for a mail, and whether a `send` from an offset of the response works, that is does not return -1.
pub record Io : Type 0 where
  pub received : Option Bytes
  pub stale : Bytes
  pub stale_data : Bytes
  pub header_memory : List Hdr
  pub mail_memory : Mail
  pub send_works : ℕ → Bool

-- One `send`: its bytes, and whether it has the flag MSG_MORE.
pub record Chunk : Type 0 where
  pub bytes : Bytes
  pub more : Bool

-- The connection, the queue of the worker, what was sent, and whether the descriptor is closed.
pub record World : Type 0 where
  pub conn : Connection
  pub queue : Option Ref
  pub sent : List Chunk
  pub hung_up : Bool

-- `connection_start`, with what `malloc` returns for the headers.
unfoldable pub start : List Hdr → Connection
unfolding Request.init Response.init
start memory = record {
  request = some (Request.init memory);
  response = some Response.init;
  status = started;
  read_buffer = none;
}

-- `connection_reset`
unfoldable pub reset : Connection → Connection
reset c = record { request = none; response = none; status = inactive; read_buffer = none }

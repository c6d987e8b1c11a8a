-- ===== src/Request.antt =====
-- The SMTP request of a connection: the state of src/request.c.
pub mod Commands
pub mod Headers
use comfirm_dmarc_report_ser.Common.{
  ℕ, Bool, true, false, List, [], Option, none, some, length, Bytes,
}
use comfirm_dmarc_report_ser.Data.{Hdr}

-- `request`. `headers` is the array of `header_max_len` headers, `text` the first `data_len` bytes
-- of `data` (`data_alloc` is 0 while `data` is NULL), and `body` its `body_len` bytes or NULL.
pub record Request : Type 0 where
  pub headers : List Hdr
  pub header_count : ℕ
  pub body : Option Bytes
  pub in_data : Bool
  pub data_alloc : ℕ
  pub text : Bytes
  pub quit : Bool
  pub process : Bool

abbrev pub data_len : Request → ℕ
data_len r = length r.text

-- `request_init`, on the headers as `malloc` returns them. `header_count` is not set there; nothing
-- reads it before `request_parse_data` sets it.
unfoldable pub init : List Hdr → Request
init memory = record {
  headers = memory;
  header_count = 0;
  body = none;
  in_data = false;
  data_alloc = 0;
  text = [];
  quit = false;
  process = false;
}

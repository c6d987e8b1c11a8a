-- ===== src/Tests/Data.antt =====
-- Mails, requests and a system for the tests.
use comfirm_dmarc_report_ser.Common.{
  ℕ, zero, suc, refl, true, false, List, [], ◌∷◌, Option, none, replicate, Bytes, codes, arith,
}
use comfirm_dmarc_report_ser.Common.Int.{pos}
use comfirm_dmarc_report_ser.Data.{Hdr, Mail}
use comfirm_dmarc_report_ser.Queue.{Ref}
use comfirm_dmarc_report_ser.Queue.Inv.{IsValid}
use comfirm_dmarc_report_ser.Connection.{Limits, Io}
use comfirm_dmarc_report_ser.Request.{Request}
use comfirm_dmarc_report_ser.Request.Headers.Print.{Field, IsField, IsHdr, AllHdrs}
use comfirm_dmarc_report_ser.Response.{Response}

abbrev pub mail_a : Mail
mail_a = record { headers = []; header_count = 1; body = 65 ∷ 0 ∷ [] }

abbrev pub mail_b : Mail
mail_b = record { headers = []; header_count = 2; body = 66 ∷ 0 ∷ [] }

-- A queue of two slots with one mail, in the second slot.
abbrev pub queue : Ref
queue = record {
  shared = record {
    write_offset = 0;
    read_offset = 1;
    message_count = 1;
    message_max_count = 2;
    memory_size = pos 62112;
  };
  slots = mail_b ∷ mail_a ∷ [];
  mapped = 65536;
  sem = 1;
}

pub queue-IsValid : IsValid queue
queue-IsValid = record {
  slot_count = refl;
  capacity_pos = omega arith;
  capacity_small = omega arith;
  read_in = omega arith;
  count_in = omega arith;
  write_at = refl;
  all_mapped = omega arith;
}

abbrev pub blank : Hdr
blank = record { key = replicate 128 0; value = replicate 1024 0 }

abbrev pub memory : List Hdr
memory = replicate 20 blank

replicate-AllHdrs : (n : ℕ) (h : Hdr) → IsHdr h → AllHdrs (replicate n h)
replicate-AllHdrs zero h v = tt
replicate-AllHdrs (suc n) h v = (v, replicate-AllHdrs n h v)

pub memory-AllHdrs : AllHdrs memory
memory-AllHdrs = replicate-AllHdrs 20 blank (record { key_size = refl; value_size = refl })

abbrev pub from_field : Field
from_field = record { key = codes "From"; value = codes "a@b.c" }

pub from_field-IsField : IsField from_field
from_field-IsField = record {
  key_bytes = ground arith;
  key_fits = omega arith;
  value_bytes = ground arith;
  value_fits = omega arith;
}

-- A request within the data, of which nothing has come yet.
abbrev pub request : Request
request = record {
  headers = memory;
  header_count = 0;
  body = none;
  in_data = true;
  data_alloc = 0;
  text = [];
  quit = false;
  process = false;
}

abbrev pub response : Response
response = record { data_alloc = 0; text = [] }

abbrev pub limits : Limits
limits = record {
  read_buffer_size = 4046;
  write_buffer_size = 4;
  data_buffer_size = 100;
  hostname = codes "h";
  server_name = codes "s";
}

abbrev pub io : Option Bytes → Io
io received = record {
  received = received;
  stale = replicate 9 0;
  stale_data = [];
  header_memory = memory;
  mail_memory = record { headers = memory; header_count = 0; body = [] };
  send_works = λ _. true;
}

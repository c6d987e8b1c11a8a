-- ===== src/Queue/Open.antt =====
-- Opening a queue: `pq_init`, `pq_open` and `pq_get_mapped_memory` of persisted_queue.c, with
-- `file_size` and `file_exist` of src/lib-pq/base.c. What the operating system answers is a
-- parameter.
pub mod Fresh
pub mod Reopen
use comfirm_dmarc_report_ser.Common.{
  ℕ, ◌+◌, ◌-◌, ◌*◌, ◌/◌, ◌%◌, ◌^◌, Bool, true, false, List, [], ◌∷◌, Option, none, some, ◌==◌, not,
  ◌&&◌, if◌then◌else◌, replicate,
}
use comfirm_dmarc_report_ser.Common.Int.{
  ℤ, pos, negsuc, to_int, to_long, to_size, pred_ℤ, is_negative, int_eq,
}
use comfirm_dmarc_report_ser.Data.{
  Hdr, Mail, key_max_len, value_max_len, header_max_len, body_max_len,
}
use comfirm_dmarc_report_ser.Queue.{
  Code, success, open_file_error, lseek_stretch_error, eof_write_byte_error, mapping_error,
  inaccurate_message_size, semaphore_error, mail_size, shared_size, Shared, Ref, semaphore_init,
}

-- What `stat` says: whether it fails with ENOENT, and the buffer after the call.
pub record Stat : Type 0 where
  pub missing : Bool
  pub is_dir : Bool
  pub st_size : ℕ

-- The answers of the operating system while a queue is opened. `file_shared` and `file_slots` are
-- what a mapping of a file that is there shows.
pub record Host : Type 0 where
  pub stat : Stat
  pub open_works : Bool
  pub lseek_works : ℤ → Bool
  pub write_works : Bool
  pub mmap_works : Bool
  pub semget_works : Bool
  pub page_size : ℕ
  pub file_shared : Shared
  pub file_slots : List Mail

-- `file_size`; the size is returned as an `int`.
unfoldable pub file_size : Stat → ℤ
file_size s = if s.missing then negsuc 0 else if s.is_dir then negsuc 0 else to_int s.st_size

-- `file_exist`
unfoldable pub file_exist : Stat → ℤ
file_exist s = if s.missing then negsuc 0 else if s.is_dir then negsuc 0 else pos 0

-- `mmap` maps whole pages.
abbrev pub round_up : ℕ → ℕ → ℕ
round_up page n = (n + page - 1) / page * page

-- `pq_get_mapped_memory`: the code, and how many bytes are mapped.
unfoldable pub get_mapped_memory : Host → ℤ → Bool → Code × ℕ
get_mapped_memory h memory_size map_write =
    if map_write && not (h.lseek_works (pred_ℤ memory_size))
    then (lseek_stretch_error, 0)
    else if map_write && not h.write_works
    then (eof_write_byte_error, 0)
    else if not h.mmap_works
    then (mapping_error, 0)
    else (success, round_up h.page_size (to_size memory_size))

-- A mail of zero bytes, as a new file holds them.
pub zero_mail : Mail
zero_mail = record {
  headers =
      replicate header_max_len
        (record { key = replicate key_max_len 0; value = replicate value_max_len 0 });
  header_count = 0;
  body = replicate body_max_len 0;
}

abbrev pub Opened : Type 0
Opened = Code × Option Ref

-- The result with a reference that is set only on success.
abbrev attach : Code × ℕ → (ℕ → Ref) → Opened
attach (success, len) make = (success, some (make len))
attach (c, _) make = (c, none)

-- `pq_open`, for a non-negative `message_max_count`. The semaphore is set up by `pq_init`.
unfoldable pub open_file : Host → ℕ → Opened
unfolding file_size get_mapped_memory
open_file h max_count =
    let size = file_size h.stat in
    if not (int_eq size (negsuc 0))
      && not (to_size size == (shared_size + mail_size * max_count) % 2 ^ 64)
    then (inaccurate_message_size, none)
    else if not h.open_works
    then (open_file_error, none)
    else attach (get_mapped_memory h (to_long (max_count * mail_size)) false)
        (λ len. record { shared = h.file_shared; slots = h.file_slots; mapped = len; sem = 0 })

-- The first branch of `pq_init`: a new file, all of it zero bytes but what is written here.
unfoldable pub create_file : Host → ℕ → Opened
unfolding get_mapped_memory
create_file h max_count =
    let memory_size = to_int (max_count * mail_size) in
    if not h.open_works
    then (open_file_error, none)
    else attach (get_mapped_memory h (to_long ((shared_size + to_size memory_size) % 2 ^ 64)) true)
        (λ len. record {
          shared = record {
            write_offset = 0;
            read_offset = 0;
            message_count = 0;
            message_max_count = max_count;
            memory_size = memory_size;
          };
          slots = replicate max_count zero_mail;
          mapped = len;
          sem = 0;
        })

-- `semget`, and the semaphore set to 1. The reference is set already when it fails.
abbrev set_up_semaphore : Host → Opened → Opened
set_up_semaphore h (success, some r) =
    if h.semget_works then (success, some (semaphore_init r)) else (semaphore_error, some r)
set_up_semaphore h opened = opened

-- `pq_init`
unfoldable pub init : Host → ℕ → Opened
unfolding file_exist open_file create_file semaphore_init
init h max_count =
    if int_eq (file_exist h.stat) (negsuc 0)
    then set_up_semaphore h (create_file h max_count)
    else set_up_semaphore h (open_file h max_count)

-- ===== src/Queue.antt =====
-- The persisted queue of mails, src/lib-pq/persisted_queue.c: a ring of mail slots in a file that is
-- mapped into memory and shared by a worker and its mailhandler.
pub mod Spec
pub mod Inv
pub mod Refine
pub mod Fifo
pub mod View
pub mod Open
pub mod Sync
pub mod Callers
use comfirm_dmarc_report_ser.Common.{
  ℕ, ◌+◌, ◌-◌, ◌*◌, ◌%◌, Bool, true, false, List, [], ◌∷◌, ◌++◌, Option, none, some, ltb, leb, ◌==◌,
  if◌then◌else◌, get_elem?, set,
}
use comfirm_dmarc_report_ser.Common.Outcome.{
  Outcome, ok, fault, null_deref, out_of_bounds, blocked, ◌>>=◌,
}
use comfirm_dmarc_report_ser.Common.Int.{ℤ}
use comfirm_dmarc_report_ser.Data.{Mail}

-- The return codes of persisted_queue.h; `success` is 0 and every other one is below -1.
pub data Code : Type 0 where
  success open_file_error lseek_stretch_error eof_write_byte_error mapping_error : Code
  unmapping_error inaccurate_message_size : Code
  message_size_reached message_queue_empty reference_not_set semaphore_error : Code

-- `sizeof(mail)` and `sizeof(pq_ref_shared)`, with a `long` of 8 bytes.
abbrev pub mail_size : ℕ
mail_size = 31044

abbrev pub shared_size : ℕ
shared_size = 24

-- `pq_ref_shared`
pub record Shared : Type 0 where
  pub write_offset : ℕ
  pub read_offset : ℕ
  pub message_count : ℕ
  pub message_max_count : ℕ
  pub memory_size : ℤ

-- `pq_ref` and what it leads to: the shared header and the mail slots of the mapping, the length
-- in bytes that may be touched from its start, and the value of the semaphore.
pub record Ref : Type 0 where
  pub shared : Shared
  pub slots : List Mail
  pub mapped : ℕ
  pub sem : ℕ

-- One call of `msync`: the offset in the mapping, and the number of bytes.
pub record SyncCall : Type 0 where
  pub offset : ℕ
  pub len : ℕ

-- Where the slot `i` begins in the mapping.
abbrev pub slot_offset : ℕ → ℕ
slot_offset i = shared_size + i * mail_size

-- A slot may be touched if all of it is mapped.
abbrev pub slot_mapped : Ref → ℕ → Bool
slot_mapped r i = leb (slot_offset i + mail_size) r.mapped

-- `semop` with -1 waits while the semaphore is 0.
unfoldable pub semaphore_wait : Ref → Outcome Ref
semaphore_wait r = if r.sem == 0 then fault blocked else ok (record r { sem = r.sem - 1 })

unfoldable pub semaphore_post : Ref → Ref
semaphore_post r = record r { sem = r.sem + 1 }

-- `semctl` with SETALL to 1.
unfoldable pub semaphore_init : Ref → Ref
semaphore_init r = record r { sem = 1 }

-- `memcpy` to and from a slot.
unfoldable pub store_slot : Ref → ℕ → Mail → Outcome Ref
store_slot r i m =
    if slot_mapped r i then ok (record r { slots = set r.slots i m }) else fault out_of_bounds

unfoldable pub load_slot : Ref → ℕ → Outcome Mail
load_slot r i =
    if slot_mapped r i
    then elim (get_elem? r.slots i) [ some m ↦ ok m | none ↦ fault out_of_bounds ]
    else fault out_of_bounds

-- `pq_header_sync`: the offset of one of the two offsets, and of the count.
unfoldable pub header_sync : Bool → List SyncCall
header_sync write =
    record { offset = if write then 0 else 4; len = 4 } ∷ record { offset = 8; len = 4 } ∷ []

-- What a call leaves: the code, the queue, and the `msync` calls it made.
pub record Done : Type 0 where
  pub code : Code
  pub ref : Ref
  pub syncs : List SyncCall

-- `pq_enqueue` between the semaphore operations. The argument is not NULL by then.
unfoldable pub enqueue_body : Ref → Mail → Outcome Done
unfolding store_slot header_sync
enqueue_body r m =
    if leb r.shared.message_max_count r.shared.message_count
    then ok (record { code = message_size_reached; ref = r; syncs = [] })
    else (do
      let w = r.shared.write_offset
      stored ← store_slot r w m
      ok (record {
        code = success;
        ref = record stored {
          shared = record (stored.shared) {
            write_offset = (w + 1) % r.shared.message_max_count;
            message_count = r.shared.message_count + 1;
          };
        };
        syncs = header_sync true ++ (record { offset = slot_offset w; len = mail_size } ∷ []);
      }))

-- `pq_enqueue`. The reference is read for its semaphore before it is compared with NULL.
unfoldable pub enqueue : Option Ref → Mail → Outcome Done
unfolding semaphore_wait semaphore_post enqueue_body
enqueue none m = fault null_deref
enqueue (some r) m = do
  held ← semaphore_wait r
  done ← enqueue_body held m
  ok (record done { ref = semaphore_post done.ref })

-- What `pq_dequeue` leaves: also the mail copied to the caller, if one is.
pub record Taken : Type 0 where
  pub done : Done
  pub out : Option Mail

unfoldable pub dequeue_body : Ref → Outcome Taken
unfolding load_slot header_sync
dequeue_body r =
    if r.shared.message_count == 0
    then ok
        (record { done = record { code = message_queue_empty; ref = r; syncs = [] }; out = none })
    else (do
      m ← load_slot r r.shared.read_offset
      ok (record {
        done = record {
          code = success;
          ref = record r {
            shared = record (r.shared) {
              read_offset = (r.shared.read_offset + 1) % r.shared.message_max_count;
              message_count = r.shared.message_count - 1;
            };
          };
          syncs = header_sync false;
        };
        out = some m;
      }))

-- `pq_dequeue`
unfoldable pub dequeue : Option Ref → Outcome Taken
unfolding semaphore_wait semaphore_post dequeue_body
dequeue none = fault null_deref
dequeue (some r) = do
  held ← semaphore_wait r
  taken ← dequeue_body held
  ok (record taken { done = record (taken.done) { ref = semaphore_post taken.done.ref } })

-- `pq_close`, given whether `munmap` succeeds.
unfoldable pub close : Bool → Option Ref → Code
close unmapped none = reference_not_set
close unmapped (some r) = if unmapped then success else unmapping_error

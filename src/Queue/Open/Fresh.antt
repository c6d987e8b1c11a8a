-- ===== src/Queue/Open/Fresh.antt =====
-- `pq_init` where no file is there yet.
use comfirm_dmarc_report_ser.Common.{
  ℕ, ◌+◌, ◌-◌, ◌*◌, ◌^◌, ◌≤◌, ◌<◌, ◌≡◌, refl, true, false, [], none, some, arith, replicate,
  length-replicate,
}
use comfirm_dmarc_report_ser.Common.Int.{
  pos, negsuc, to_int-small, to_long-small, to_int-wraps, to_long-negative,
}
use comfirm_dmarc_report_ser.Queue.{success, lseek_stretch_error, mail_size, shared_size, Ref}
use comfirm_dmarc_report_ser.Queue.Inv.{IsValid}
use comfirm_dmarc_report_ser.Queue.Refine.{contents}
use comfirm_dmarc_report_ser.Queue.Open.{Host, round_up, init, zero_mail}

-- Every call that opening makes works, but for seeks to a negative offset: `lseek` fails on those.
pub record Works (h : Host) : Type 0 where
  pub opens : h.open_works ≡ true
  pub seeks : (n : ℕ) → h.lseek_works (pos n) ≡ true
  pub no_negative_seek : (n : ℕ) → h.lseek_works (negsuc n) ≡ false
  pub writes : h.write_works ≡ true
  pub maps : h.mmap_works ≡ true
  pub has_semaphore : h.semget_works ≡ true
  pub page_pos : 0 < h.page_size

pub round_up-le : (page n : ℕ) → 0 < page → n ≤ round_up page n
round_up-le page n h = omega arith

abbrev fresh : Host → ℕ → Ref
fresh h n = record {
  shared = record {
    write_offset = 0;
    read_offset = 0;
    message_count = 0;
    message_max_count = n;
    memory_size = pos (n * mail_size);
  };
  slots = replicate n zero_mail;
  mapped = round_up h.page_size (shared_size + n * mail_size);
  sem = 1;
}

init-fresh :
    (h : Host) (n : ℕ)
    → Works h
    → h.stat.missing ≡ true
    → n * mail_size < 2 ^ 31
    → init h n ≡ (success, some (fresh h n))
unfolding init
init-fresh h n w missing small = ground (
  arith,
  to_int-small (n * mail_size) small,
  to_long-small (shared_size + n * mail_size) (omega arith),
  w.seeks (shared_size + n * mail_size - 1),
)

fresh-IsValid :
    (h : Host) (n : ℕ) → 0 < h.page_size → 0 < n → n * mail_size < 2 ^ 31 → IsValid (fresh h n)
fresh-IsValid h n page some_room small = record {
  slot_count = length-replicate n zero_mail;
  capacity_pos = some_room;
  capacity_small = omega arith;
  read_in = some_room;
  count_in = omega arith;
  write_at = omega arith;
  all_mapped = round_up-le h.page_size (shared_size + n * mail_size) page;
}

-- Where no file is there and every system call works, `pq_init` for n mails, with 0 < n and a queue
-- below 2^31 bytes, returns 0 and a valid, empty queue of capacity n whose semaphore is free.
pub init_creates :
    (h : Host) (n : ℕ)
    → Works h
    → h.stat.missing ≡ true
    → 0 < n
    → n * mail_size < 2 ^ 31
    → (r : Ref) × (init h n ≡ (success, some r))
      × IsValid r
      × (contents r ≡ [])
      × (r.shared.message_max_count ≡ n)
      × (r.sem ≡ 1)
init_creates h n w missing some_room small = (
  fresh h n,
  init-fresh h n w missing small,
  fresh-IsValid h n w.page_pos some_room small,
  refl,
  refl,
  refl,
)

-- Where no file is there and every system call works, but a seek to a negative offset fails:
-- `pq_init` for a queue of at least 2^31 and less than 2^32 - 24 bytes reports that the file could
-- not be stretched, since the size wraps to a negative `int`.
pub init_too_large :
    (h : Host) (n : ℕ)
    → Works h
    → h.stat.missing ≡ true
    → 2 ^ 31 ≤ n * mail_size
    → n * mail_size + shared_size < 2 ^ 32
    → init h n ≡ (lseek_stretch_error, none)
unfolding init
init_too_large h n w missing large small = ground (
  arith,
  to_int-wraps (n * mail_size) large (omega arith),
  to_long-negative (2 ^ 64 - (2 ^ 32 - n * mail_size) + shared_size) (omega arith) (omega arith),
  w.no_negative_seek (2 ^ 32 - n * mail_size - shared_size),
)

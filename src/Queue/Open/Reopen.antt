-- ===== src/Queue/Open/Reopen.antt =====
-- `pq_init` on the file of an earlier run. `pq_open` maps room for the slots alone, without the
-- header in front of them.
use native.Mathlib.Nat.{div-add-mod', div-eq_of_lt-le}
use comfirm_dmarc_report_ser.Common.{
  ℕ, ◌+◌, ◌-◌, ◌*◌, ◌/◌, ◌%◌, ◌^◌, ◌≤◌, ◌<◌, ◌≡◌, refl, sym, ap, ◌∙◌, false, none, some, arith,
  length,
}
use comfirm_dmarc_report_ser.Common.Int.{to_int-small, to_long-small}
use comfirm_dmarc_report_ser.Common.Outcome.{fault, out_of_bounds}
use comfirm_dmarc_report_ser.Data.{Mail}
use comfirm_dmarc_report_ser.Queue.{
  success, inaccurate_message_size, mail_size, shared_size, Ref, enqueue,
}
use comfirm_dmarc_report_ser.Queue.Inv.{IsValid}
use comfirm_dmarc_report_ser.Queue.Refine.{contents}
use comfirm_dmarc_report_ser.Queue.Open.{Host, round_up, init}
use comfirm_dmarc_report_ser.Queue.Open.Fresh.{Works}

-- The queue file of an earlier run, for n mails: below 2^31 bytes, and of the size that `pq_init` gave it.
pub record IsQueueFile (h : Host) (n : ℕ) : Type 0 where
  pub there : h.stat.missing ≡ false
  pub plain : h.stat.is_dir ≡ false
  pub size : h.stat.st_size ≡ shared_size + n * mail_size
  pub small : shared_size + n * mail_size < 2 ^ 31
  pub slot_count : length h.file_slots ≡ n
  pub capacity : h.file_shared.message_max_count ≡ n

abbrev pub reopened : Host → ℕ → Ref
reopened h n = record {
  shared = h.file_shared;
  slots = h.file_slots;
  mapped = round_up h.page_size (n * mail_size);
  sem = 1;
}

pub init-reopened :
    (h : Host) (n : ℕ) → Works h → IsQueueFile h n → init h n ≡ (success, some (reopened h n))
unfolding init
init-reopened h n w f =
    ground (
      arith,
      to_int-small h.stat.st_size (omega arith),
      to_long-small (n * mail_size) (omega arith),
    )

-- A file of another size is refused, whatever it holds.
pub init_wrong_size :
    (h : Host) (n : ℕ)
    → h.stat.missing ≡ false
    → h.stat.is_dir ≡ false
    → h.stat.st_size < 2 ^ 31
    → n < 2 ^ 31
    → (h.stat.st_size ≡ shared_size + n * mail_size → ⊥)
    → init h n ≡ (inaccurate_message_size, none)
unfolding init
init_wrong_size h n there plain small n_small differs =
    ground (arith, to_int-small h.stat.st_size small, differs)

-- Where the system calls work and the file holds the header and the slots of a valid queue of n
-- mails: `pq_init` for the same n returns 0 and a valid queue whose semaphore is free, with the
-- same mails in the same order, if the whole pages that n slots fill leave room for the header.
pub init_restores :
    (h : Host) (n : ℕ) (old : Ref)
    → Works h
    → IsQueueFile h n
    → IsValid old
    → h.file_shared ≡ old.shared
    → h.file_slots ≡ old.slots
    → shared_size + n * mail_size ≤ round_up h.page_size (n * mail_size)
    → (r : Ref) × (init h n ≡ (success, some r))
      × IsValid r
      × (contents r ≡ contents old)
      × (r.sem ≡ 1)
init_restores h n old w f v same_shared same_slots fits =
    (reopened h n, init-reopened h n w f, valid, rw (same_shared, same_slots), refl)
  where
    valid : IsValid (reopened h n)
    valid = record {
      slot_count = f.slot_count ∙ sym f.capacity;
      capacity_pos = rw same_shared v.capacity_pos;
      capacity_small = rw same_shared v.capacity_small;
      read_in = rw same_shared v.read_in;
      count_in = rw same_shared v.count_in;
      write_at = rw same_shared v.write_at;
      all_mapped = rw f.capacity fits;
    }

round_up-exact : (page n : ℕ) → 0 < page → n % page ≡ 0 → round_up page n ≡ n
round_up-exact page n h e = ap (λ (k : ℕ). k * page) pages ∙ whole
  where
    whole : n / page * page ≡ n
    whole = omega (arith, div-add-mod' n page)

    above : n + page - 1 < (n / page + 1) * page
    above = omega (arith, div-add-mod' n page)

    pages : (n + page - 1) / page ≡ n / page
    pages = div-eq_of_lt-le page (omega (arith, whole)) above

-- Where the system calls work, the file is that of a queue of n mails, 0 < n, and n slots fill
-- whole pages exactly: `pq_init` returns 0, and if the queue is not full and its next slot is the
-- last one, `pq_enqueue` touches memory outside the mapping.
pub reopened_last_slot_faults :
    (h : Host) (n : ℕ) (m : Mail)
    → Works h
    → IsQueueFile h n
    → 0 < n
    → n * mail_size % h.page_size ≡ 0
    → h.file_shared.write_offset + 1 ≡ n
    → h.file_shared.message_count < n
    → (r : Ref) × (init h n ≡ (success, some r)) × (enqueue (some r) m ≡ fault out_of_bounds)
unfolding enqueue
reopened_last_slot_faults h n m w f some_room whole last room = (
  reopened h n,
  init-reopened h n w f,
  ground (arith, f.capacity, round_up-exact h.page_size (n * mail_size) w.page_pos whole),
)

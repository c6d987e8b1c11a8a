-- ===== src/Queue/Callers/Crash.antt =====
-- A process that dies inside of a call. The semaphore operations have SEM_UNDO, so that the system
-- gives the semaphore back.
use native.Mathlib.Nat.{mod-lt, mod-add-mod, mod-eq_of_lt, mod-eq-sub-mod}
use native.Mathlib.Decide.{ℕ_discrete, dec_lt}
use mathlib.Core.Path.{subst}
use comfirm_dmarc_report_ser.Common.{
  ℕ, ◌+◌, ◌-◌, ◌%◌, ◌<◌, ◌≡◌, ◌≢◌, refl, sym, ap, ◌∙◌, Bool, true, false, arith, length-set,
}
use comfirm_dmarc_report_ser.Common.Tabulate.{tabulate-cong}
use comfirm_dmarc_report_ser.Data.{Mail}
use comfirm_dmarc_report_ser.Queue.{Ref, semaphore_post}
use comfirm_dmarc_report_ser.Queue.Inv.{IsValid, pushed}
use comfirm_dmarc_report_ser.Queue.Refine.{contents, nth, nth-pushed_old, write_in}
use comfirm_dmarc_report_ser.Queue.Spec.{Content}
use comfirm_dmarc_report_ser.Queue.Callers.{
  Pc, idle, put_check, put_copy, put_advance, put_count, take_check, take_copy, take_advance,
  take_count, leave, Memory, with_ref, advance_write, advance_read, System, update, Reach,
}
use comfirm_dmarc_report_ser.Queue.Callers.Inv.{Holds, At, copied, with_sem-Holds}
use comfirm_dmarc_report_ser.Queue.Callers.Safety.{
  mutual_exclusion, inside-Moved, update_self, update_ne,
}
use comfirm_dmarc_report_ser.Queue.Callers.Spec.{next, Agrees}

-- What the system gives back of a process that dies.
abbrev pub undone : Pc → Ref → Ref
undone idle r = r
undone _ r = semaphore_post r

-- The processes once one of them died, and was started again outside of the calls.
unfoldable pub crashed : System → ℕ → System
crashed s i = record { mem = with_ref s.mem (undone (s.pc i) s.mem.ref); pc = update s.pc i idle }

-- Whether a call has moved an offset and has not counted the mail yet.
abbrev pub is_between : Pc → Bool
is_between (put_count x) = true
is_between (take_count x) = true
is_between _ = false

-- The mails that a call leaves if it is cut off: it did nothing yet, or all but its return.
abbrev pub kept : ℕ → Content → Pc → Content
kept limit q (leave op reply) = next limit q op
kept limit q _ = q

Holds-copied :
    {limit : ℕ} {r : Ref} {q : Content} (x : Mail)
    → Holds limit r q
    → r.shared.message_count < r.shared.message_max_count
    → Holds limit (copied r x) q
Holds-copied {r = r} x h room = record {
  valid = record {
    slot_count = length-set r.slots r.shared.write_offset x ∙ h.valid.slot_count;
    capacity_pos = h.valid.capacity_pos;
    capacity_small = h.valid.capacity_small;
    read_in = h.valid.read_in;
    count_in = h.valid.count_in;
    write_at = h.valid.write_at;
    all_mapped = h.valid.all_mapped;
  };
  same =
      tabulate-cong r.shared.message_count (nth (pushed r x)) (nth r)
        (nth-pushed_old x h.valid room)
      ∙ h.same;
  capacity = h.capacity;
}

-- The semaphore is given back, and the mails are there.
abbrev Whole : ℕ → Ref → Content → Type 0
Whole limit r q = (r.sem ≡ 1) × Holds limit r q

posted :
    {limit : ℕ} {q : Content} (r : Ref)
    → r.sem ≡ 0
    → Holds limit r q
    → Whole limit (semaphore_post r) q
unfolding semaphore_post
posted r down h = (omega (arith, down), with_sem-Holds (r.sem + 1) h)

cut_off :
    (limit : ℕ) (m : Memory) (p : Pc) (q : Content)
    → At limit m p q
    → p ≢ idle
    → is_between p ≡ false
    → Whole limit (undone p m.ref) (kept limit q p)
cut_off limit m idle q a inside outside = absurd (inside refl)
cut_off limit m (put_check x) q a inside outside = posted m.ref a.0 a.1
cut_off limit m (put_copy x) q a inside outside = posted m.ref a.0 a.1
cut_off limit m (put_advance x) q (r, down, h, room, e) inside outside =
    posted m.ref (ap (λ (t : Ref). t.sem) e ∙ down)
      (subst (λ (t : Ref). Holds limit t q) (sym e) (Holds-copied x h room))
cut_off limit m (put_count x) q a inside outside = cc
cut_off limit m take_check q a inside outside = posted m.ref a.0 a.1
cut_off limit m take_copy q a inside outside = posted m.ref a.0 a.1
cut_off limit m (take_advance x) q a inside outside = posted m.ref a.0 a.1
cut_off limit m (take_count x) q a inside outside = cc
cut_off limit m (leave op reply) q a inside outside = posted m.ref a.0 a.2

-- The place behind a place of a ring is another one.
suc_ne : (w n : ℕ) → w < n → 1 < n → (w + 1) % n ≢ w
suc_ne w n within some_places = elim (dec_lt (w + 1) n) [
  | yes p ↦ omega (arith, mod-eq_of_lt p)
  | no p ↦ omega (
    arith,
    mod-eq-sub-mod {n = w + 1} {m = n} (omega arith),
    mod-eq_of_lt {n = w + 1 - n} {m = n} (omega arith),
  )
]

-- Behind a put that did not count, or a take, the write offset is not where the count says.
put_breaks :
    {r : Ref} (x : Mail)
    → IsValid r
    → 1 < r.shared.message_max_count
    → r.shared.message_count < r.shared.message_max_count
    → ¬ IsValid (semaphore_post (advance_write (copied r x)))
unfolding semaphore_post
put_breaks {r} x v some_places room broken =
    suc_ne r.shared.write_offset r.shared.message_max_count (write_in x v room) some_places
      (broken.write_at ∙ sym v.write_at)

take_breaks :
    {r : Ref}
    → IsValid r
    → 1 < r.shared.message_max_count
    → 0 < r.shared.message_count
    → ¬ IsValid (semaphore_post (advance_read r))
unfolding semaphore_post
take_breaks {r} v some_places some_left broken =
    suc_ne ((r.shared.read_offset + r.shared.message_count) % r.shared.message_max_count)
      r.shared.message_max_count (mod-lt _ v.capacity_pos) some_places
      (mod-add-mod (r.shared.read_offset + r.shared.message_count) r.shared.message_max_count 1
        ∙ ap (λ (k : ℕ). k % r.shared.message_max_count) (omega arith)
        ∙ sym (
            mod-add-mod (r.shared.read_offset + 1) r.shared.message_max_count
              r.shared.message_count)
        ∙ sym broken.write_at
        ∙ v.write_at)

breaks :
    (limit : ℕ) (m : Memory) (p : Pc) (q : Content)
    → At limit m p q
    → is_between p ≡ true
    → 1 < limit
    → ((undone p m.ref).sem ≡ 1) × (¬ IsValid (undone p m.ref))
unfolding semaphore_post
breaks limit m (put_count x) q (r, down, h, room, e) between some_places = (
  omega (arith, down, ap (λ (t : Ref). t.sem) e),
  subst (λ (t : Ref). ¬ IsValid (semaphore_post t)) (sym e)
      (put_breaks x h.valid (omega (arith, h.capacity)) room),
)
breaks limit m (take_count x) q (r, down, h, left, y, e) between some_places = (
  omega (arith, down, ap (λ (t : Ref). t.sem) e),
  subst (λ (t : Ref). ¬ IsValid (semaphore_post t)) (sym e)
      (take_breaks h.valid (omega (arith, h.capacity)) left),
)
breaks limit m idle q a between some_places = cc
breaks limit m (put_check x) q a between some_places = cc
breaks limit m (put_copy x) q a between some_places = cc
breaks limit m (put_advance x) q a between some_places = cc
breaks limit m take_check q a between some_places = cc
breaks limit m take_copy q a between some_places = cc
breaks limit m (take_advance x) q a between some_places = cc
breaks limit m (leave op reply) q a between some_places = cc

-- Every queue that is valid when the processes open it.
module _ {r : Ref} (v : IsValid r) (up : r.sem ≡ 1) {s : System} (i : ℕ) (reach : Reach r s)
    (inside : s.pc i ≢ idle) where
  outside : (j : ℕ) → (crashed s i).pc j ≡ idle
  unfolding crashed
  outside j = elim (ℕ_discrete i j) [
    | yes e ↦ subst (λ (k : ℕ). update s.pc i idle k ≡ idle) e (update_self s.pc i idle)
    | no ne ↦ update_ne s.pc i j idle ne ∙ mutual_exclusion v up i j reach inside ne
  ]

  -- A process dies inside of a call that has moved no offset, or has moved its offset and counted.
  -- Then every process is outside, the semaphore is 1, the queue is valid, and its mails are those
  -- that the calls that returned have left, as they are or with the one call more: no mail is
  -- damaged, and at most that of the process that died is lost. So it is whatever way the accesses
  -- were interleaved, if the queue was valid when the processes opened it and its semaphore was 1.
  pub crash_keeps :
      is_between (s.pc i) ≡ false
      → (q : Content) × Agrees r.shared.message_max_count (contents r) s.mem.log q
        × ((j : ℕ) → (crashed s i).pc j ≡ idle)
        × ((crashed s i).mem.ref.sem ≡ 1)
        × IsValid (crashed s i).mem.ref
        × (contents (crashed s i).mem.ref ≡ kept r.shared.message_max_count q (s.pc i))
  unfolding crashed
  crash_keeps not_between =
      let moved = inside-Moved v up i reach inside in
      let (sem, h) =
        cut_off r.shared.message_max_count s.mem (s.pc i) moved.left moved.there inside
          not_between in
      (moved.left, moved.agrees, outside, sem, h.valid, h.same)

  -- A process dies inside of a call that has moved an offset and not counted the mail yet, on a queue
  -- for more than one mail: then the semaphore is 1, so that the next call goes in, every process is
  -- outside, and the queue is not valid. So it is whatever way the accesses were interleaved, if
  -- the queue was valid when the processes opened it and its semaphore was 1.
  pub crash_breaks :
      is_between (s.pc i) ≡ true
      → 1 < r.shared.message_max_count
      → ((j : ℕ) → (crashed s i).pc j ≡ idle)
        × ((crashed s i).mem.ref.sem ≡ 1)
        × (¬ IsValid (crashed s i).mem.ref)
  unfolding crashed
  crash_breaks between some_places =
      let moved = inside-Moved v up i reach inside in
      let (sem, broken) =
        breaks r.shared.message_max_count s.mem (s.pc i) moved.left moved.there between
          some_places in
      (outside, sem, broken)

-- ===== src/Queue/Callers/Inv.antt =====
-- While a process holds the semaphore, the queue is what the calls before have left, as far as the
-- call of that process has come.
use mathlib.Core.Path.{subst}
use native.Mathlib.Nat.{mod-lt}
use comfirm_dmarc_report_ser.Common.{
  ℕ, ◌≤◌, ◌<◌, ◌≡◌, refl, sym, ap, ◌∙◌, [], ◌∷◌, ◌++◌, Option, none, arith, set, get_or, length,
  get_elem?-eq-get_or,
}
use comfirm_dmarc_report_ser.Common.Outcome.{ok, ok-inj}
use comfirm_dmarc_report_ser.Data.{Mail}
use comfirm_dmarc_report_ser.Queue.{
  Ref, Code, success, message_size_reached, message_queue_empty, semaphore_wait, store_slot,
  load_slot,
}
use comfirm_dmarc_report_ser.Queue.Inv.{
  IsValid, slot_mapped-lt, pushed, popped, pushed-IsValid, popped-IsValid,
}
use comfirm_dmarc_report_ser.Queue.Refine.{
  contents, contents-pushed, contents-popped, length-contents, no_mail,
}
use comfirm_dmarc_report_ser.Queue.Spec.{Content, put, take_one, push, pop}
use comfirm_dmarc_report_ser.Queue.Callers.{
  Pc, idle, put_check, put_copy, put_advance, put_count, take_check, take_copy, take_advance,
  take_count, leave, Memory, advance_write, advance_read,
}
use comfirm_dmarc_report_ser.Queue.Callers.Spec.{answer, next}

-- A valid queue that holds these mails.
pub record Holds (cap : ℕ) (r : Ref) (q : Content) : Type 0 where
  pub valid : IsValid r
  pub same : contents r ≡ q
  pub capacity : r.shared.message_max_count ≡ cap

abbrev pub oldest : Ref → Mail
oldest r = get_or r.slots r.shared.read_offset no_mail

-- The queue once a mail is copied to it.
abbrev pub copied : Ref → Mail → Ref
copied r x = record r { slots = set r.slots r.shared.write_offset x }

-- The state of a call that has come so far, where the calls before have left `q`.
abbrev pub At : ℕ → Memory → Pc → Content → Type 0
At cap m idle q = (m.ref.sem ≡ 1) × Holds cap m.ref q
At cap m (put_check x) q = (m.ref.sem ≡ 0) × Holds cap m.ref q
At cap m (put_copy x) q =
    (m.ref.sem ≡ 0)
    × Holds cap m.ref q
    × (m.ref.shared.message_count < m.ref.shared.message_max_count)
At cap m (put_advance x) q =
    (r : Ref) × (r.sem ≡ 0)
    × Holds cap r q
    × (r.shared.message_count < r.shared.message_max_count)
    × (m.ref ≡ copied r x)
At cap m (put_count x) q =
    (r : Ref) × (r.sem ≡ 0)
    × Holds cap r q
    × (r.shared.message_count < r.shared.message_max_count)
    × (m.ref ≡ advance_write (copied r x))
At cap m take_check q = (m.ref.sem ≡ 0) × Holds cap m.ref q
At cap m take_copy q = (m.ref.sem ≡ 0) × Holds cap m.ref q × (0 < m.ref.shared.message_count)
At cap m (take_advance x) q =
    (m.ref.sem ≡ 0) × Holds cap m.ref q × (0 < m.ref.shared.message_count) × (x ≡ oldest m.ref)
At cap m (take_count x) q =
    (r : Ref) × (r.sem ≡ 0)
    × Holds cap r q
    × (0 < r.shared.message_count)
    × (x ≡ oldest r)
    × (m.ref ≡ advance_read r)
At cap m (leave op reply) q =
    (m.ref.sem ≡ 0) × (reply ≡ answer cap q op) × Holds cap m.ref (next cap q op)

-- Neither the mails nor their validity depend on the semaphore.
abbrev pub with_sem : Ref → ℕ → Ref
with_sem r k = record r { sem = k }

pub with_sem-Holds :
    {cap : ℕ} {r : Ref} {q : Content} (k : ℕ) → Holds cap r q → Holds cap (with_sem r k) q
with_sem-Holds k h = record {
  valid = record {
    slot_count = h.valid.slot_count;
    capacity_pos = h.valid.capacity_pos;
    capacity_small = h.valid.capacity_small;
    read_in = h.valid.read_in;
    count_in = h.valid.count_in;
    write_at = h.valid.write_at;
    all_mapped = h.valid.all_mapped;
  };
  same = h.same;
  capacity = h.capacity;
}

wait_lem : {r r' : Ref} → r.sem ≡ 1 → semaphore_wait r ≡ ok r' → with_sem r 0 ≡ r'
unfolding semaphore_wait
wait_lem {r} {r'} e h = ok-inj (sym waits ∙ h)
  where
    waits : semaphore_wait r ≡ ok (with_sem r 0)
    waits = ground arith

-- After the wait, the queue is what it was, and the semaphore is 0.
pub begun :
    {limit : ℕ} {r r' : Ref} {q : Content}
    → r.sem ≡ 1
    → semaphore_wait r ≡ ok r'
    → Holds limit r q
    → (r'.sem ≡ 0) × Holds limit r' q
begun {limit} {r} {r'} {q} e w h =
    subst (λ (t : Ref). (t.sem ≡ 0) × Holds limit t q) (wait_lem e w) (refl, with_sem-Holds 0 h)

-- The mail of a finished put is the last one, and that of a finished take the first one.
pub Holds-pushed :
    {limit : ℕ} {r : Ref} {q : Content} (x : Mail)
    → Holds limit r q
    → r.shared.message_count < r.shared.message_max_count
    → Holds limit (pushed r x) (q ++ x ∷ [])
Holds-pushed x h room = record {
  valid = pushed-IsValid x h.valid room;
  same = contents-pushed x h.valid room ∙ ap (λ (c : Content). c ++ x ∷ []) h.same;
  capacity = h.capacity;
}

length_lem :
    {limit : ℕ} {r : Ref} {q : Content} → Holds limit r q → length q ≡ r.shared.message_count
length_lem {r = r} h = ap length (sym h.same) ∙ length-contents r

push-full :
    (limit : ℕ) (q : Content) (x : Mail)
    → limit ≤ length q
    → push limit q x ≡ (message_size_reached, q)
push-full limit q x h = ground arith

push-room :
    (limit : ℕ) (q : Content) (x : Mail)
    → length q < limit
    → push limit q x ≡ (success, q ++ x ∷ [])
push-room limit q x h = ground arith

pop-empty : (q : Content) → length q ≡ 0 → pop q ≡ (message_queue_empty, none, [])
pop-empty [] h = refl
pop-empty (x ∷ q) h = ground arith

nil-eq : (q : Content) → length q ≡ 0 → q ≡ []
nil-eq [] h = refl
nil-eq (x ∷ q) h = absurd (omega arith)

-- A call that has its answer.
pub put_left :
    {limit : ℕ} {q' : Content} {c : Code} (m : Memory) (q : Content) (x : Mail)
    → push limit q x ≡ (c, q')
    → m.ref.sem ≡ 0
    → Holds limit m.ref q'
    → At limit m (leave (put x) (c, none)) q
put_left {limit} m q x e s h = (
  s,
  ap (λ (p : Code × Content). (p.0, none)) (sym e),
  subst (λ (p : Code × Content). Holds limit m.ref p.1) (sym e) h,
)

pub take_left :
    {limit : ℕ} {q' : Content} {c : Code} {out : Option Mail} (m : Memory) (q : Content)
    → pop q ≡ (c, out, q')
    → m.ref.sem ≡ 0
    → Holds limit m.ref q'
    → At limit m (leave take_one (c, out)) q
take_left {limit} m q e s h = (
  s,
  ap (λ (p : Code × Option Mail × Content). (p.0, p.1)) (sym e),
  subst (λ (p : Code × Option Mail × Content). Holds limit m.ref p.2) (sym e) h,
)

module _ {limit : ℕ} {r : Ref} {q : Content} (h : Holds limit r q) where
  pub full_lem :
      (x : Mail)
      → r.shared.message_max_count ≤ r.shared.message_count
      → push limit q x ≡ (message_size_reached, q)
  full_lem x e = push-full limit q x (omega (arith, length_lem h, h.capacity))

  pub room_lem :
      (x : Mail)
      → r.shared.message_count < r.shared.message_max_count
      → push limit q x ≡ (success, q ++ x ∷ [])
  room_lem x e = push-room limit q x (omega (arith, length_lem h, h.capacity))

  pub empty_lem : r.shared.message_count ≡ 0 → pop q ≡ (message_queue_empty, none, [])
  empty_lem e = pop-empty q (length_lem h ∙ e)

  pub none_lem : r.shared.message_count ≡ 0 → Holds limit r []
  none_lem e = subst (Holds limit r) (nil-eq q (length_lem h ∙ e)) h

  pub some_lem : 0 < r.shared.message_count → q ≡ oldest r ∷ contents (popped r)
  some_lem e = sym h.same ∙ contents-popped h.valid e

  write_in : r.shared.write_offset < r.shared.message_max_count
  write_in = rw h.valid.write_at (mod-lt _ h.valid.capacity_pos)

  pub store_lem : (x : Mail) → store_slot r r.shared.write_offset x ≡ ok (copied r x)
  unfolding store_slot
  store_lem x = ground (arith, slot_mapped-lt r.shared.write_offset h.valid write_in)

  pub load_lem : load_slot r r.shared.read_offset ≡ ok (oldest r)
  unfolding load_slot
  load_lem = ground (
    arith,
    slot_mapped-lt r.shared.read_offset h.valid h.valid.read_in,
    get_elem?-eq-get_or r.slots r.shared.read_offset no_mail,
    h.valid.read_in,
    h.valid.slot_count,
  )

  pub Holds-popped : 0 < r.shared.message_count → Holds limit (popped r) (contents (popped r))
  Holds-popped e = record { valid = popped-IsValid h.valid e; same = refl; capacity = h.capacity }

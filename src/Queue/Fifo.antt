-- ===== src/Queue/Fifo.antt =====
-- The worker and the mailhandler see a first-in first-out queue, whatever they call in which order.
use native.Mathlib.Decide.{dec_lt}
use comfirm_dmarc_report_ser.Common.{◌<◌, ◌≡◌, refl, List, [], ◌∷◌, none, some, arith}
use comfirm_dmarc_report_ser.Common.Outcome.{Outcome, ok, ◌>>=◌}
use comfirm_dmarc_report_ser.Data.{Mail}
use comfirm_dmarc_report_ser.Queue.{Ref, Done, Taken, message_queue_empty, enqueue, dequeue}
use comfirm_dmarc_report_ser.Queue.Inv.{IsValid, pushed-IsValid, popped-IsValid}
use comfirm_dmarc_report_ser.Queue.Refine.{
  contents, length-contents, contents-pushed, contents-popped, enqueue-room, enqueue-full,
  dequeue-some, dequeue-empty,
}
use comfirm_dmarc_report_ser.Queue.Spec
use comfirm_dmarc_report_ser.Queue.Spec.{Op, put, take_one, Reply}

-- `r'` is a queue that the code may go on with, of the same capacity as `r`.
pub record Keeps (r r' : Ref) : Type 0 where
  pub valid : IsValid r'
  pub same_sem : r'.sem ≡ r.sem
  pub same_capacity : r'.shared.message_max_count ≡ r.shared.message_max_count

pub enqueue_refines :
    {r : Ref} (m : Mail)
    → IsValid r
    → 0 < r.sem
    → (d : Done) × (enqueue (some r) m ≡ ok d)
      × Keeps r d.ref
      × ((d.code, contents d.ref) ≡ Spec.push r.shared.message_max_count (contents r) m)
enqueue_refines {r} m v free = elim (dec_lt r.shared.message_count r.shared.message_max_count) [
  | yes room ↦ (
    _,
    enqueue-room v free m room,
    record { valid = pushed-IsValid m v room; same_sem = refl; same_capacity = refl },
    ground (arith, contents-pushed m v room, length-contents r),
  )
  | no full ↦ (
    _,
    enqueue-full v free m (omega arith),
    record { valid = v; same_sem = refl; same_capacity = refl },
    ground (arith, length-contents r),
  )
]

pub dequeue_refines :
    {r : Ref}
    → IsValid r
    → 0 < r.sem
    → (t : Taken) × (dequeue (some r) ≡ ok t)
      × Keeps r t.done.ref
      × ((t.done.code, t.out, contents t.done.ref) ≡ Spec.pop (contents r))
dequeue_refines {r} v free = elim (dec_lt 0 r.shared.message_count) [
  | yes h ↦ (
    _,
    dequeue-some v free h,
    record { valid = popped-IsValid v h; same_sem = refl; same_capacity = refl },
    rw (contents-popped v h),
  )
  | no none_left ↦ (
    _,
    dequeue-empty v free (omega arith),
    record { valid = v; same_sem = refl; same_capacity = refl },
    empty (omega arith),
  )
]
  where
    empty :
        r.shared.message_count ≡ 0 → (message_queue_empty, none, contents r) ≡ Spec.pop (contents r)
    empty e = rw e

-- A sequence of calls on one queue, with what each returns.
unfoldable pub run : Ref → List Op → Outcome (List Reply)
run r [] = ok []
run r (put m ∷ ops) =
    enqueue (some r) m >>= λ d. run d.ref ops >>= λ rest. ok ((d.code, none) ∷ rest)
run r (take_one ∷ ops) =
    dequeue (some r) >>= λ t. run t.done.ref ops >>= λ rest. ok ((t.done.code, t.out) ∷ rest)

-- No sequence of `pq_enqueue` and `pq_dequeue` calls tells a valid queue whose semaphore is free
-- from the bounded first-in first-out queue of the mails that it holds, and none of them fails to
-- return or touches memory outside the mapping.
pub run_refines :
    (ops : List Op) {r : Ref}
    → IsValid r
    → 0 < r.sem
    → run r ops ≡ ok (Spec.run r.shared.message_max_count (contents r) ops)
unfolding run Spec.run
run_refines [] v free = refl
run_refines (put m ∷ ops) {r} v free =
    let (d, e, k, same) = enqueue_refines m v free in
    let rest = run_refines ops {r = d.ref} k.valid (omega arith) in
    rw e (rw rest (rw k.same_capacity (rw (← same))))
run_refines (take_one ∷ ops) {r} v free =
    let (t, e, k, same) = dequeue_refines v free in
    let rest = run_refines ops {r = t.done.ref} k.valid (omega arith) in
    rw e (rw rest (rw k.same_capacity (rw (← same))))

-- ===== src/Queue/Callers/Calls.antt =====
-- The accesses of one process, when no other interrupts them, are `pq_enqueue` and `pq_dequeue` as
-- they stand in Queue.
use mathlib.Core.Path.{subst}
use native.Mathlib.Decide.{dec_lt}
use comfirm_dmarc_report_ser.Common.{
  ℕ, suc, ◌+◌, ◌≤◌, ◌<◌, ◌≡◌, refl, sym, ap, ◌∙◌, List, [], ◌∷◌, ◌++◌, none, some, arith,
}
use comfirm_dmarc_report_ser.Common.Outcome.{Outcome, ok, ◌>>=◌}
use comfirm_dmarc_report_ser.Data.{Mail}
use comfirm_dmarc_report_ser.Queue.{
  Ref, success, message_size_reached, message_queue_empty, semaphore_wait, semaphore_post, enqueue,
  dequeue,
}
use comfirm_dmarc_report_ser.Queue.Inv.{IsValid, pushed, popped}
use comfirm_dmarc_report_ser.Queue.Refine.{
  contents, enqueue-room, enqueue-full, dequeue-some, dequeue-empty,
}
use comfirm_dmarc_report_ser.Queue.Spec.{Op, put, take_one, Reply}
use comfirm_dmarc_report_ser.Queue.Callers.{Pc, idle, Memory, Move, System, update, Solo, stop, go}
use comfirm_dmarc_report_ser.Queue.Callers.Inv.{
  Holds, with_sem, with_sem-Holds, oldest, store_lem, load_lem,
}
use comfirm_dmarc_report_ser.Queue.Callers.Safety.{update_self}

-- A call, and what its caller sees.
abbrev pub call : Ref → Op → Outcome (Ref × Reply)
call r (put x) = enqueue (some r) x >>= λ d. ok (d.ref, (d.code, none))
call r take_one = dequeue (some r) >>= λ t. ok (t.done.ref, (t.done.code, t.out))

waits : (r : Ref) → r.sem ≡ 1 → semaphore_wait r ≡ ok (with_sem r 0)
unfolding semaphore_wait
waits r e = ground arith

posts : (r : Ref) (k : ℕ) → k ≡ 1 → semaphore_post (with_sem r 0) ≡ with_sem r k
unfolding semaphore_post
posts r k e = ap (with_sem r) {x = 0 + 1} {y = k} (omega arith)

-- A run of one process that leaves this queue and this log, and ends outside.
record Ran (i : ℕ) (s : System) (r : Ref) (log : List (Op × Reply)) : Type 0 where
  final : System
  count : ℕ
  solo : Solo i count s final
  left : final.mem.ref ≡ r
  said : final.mem.log ≡ log
  outside : final.pc i ≡ idle

-- Such a run from wherever the process stands at `p`.
abbrev From : ℕ → Ref → List (Op × Reply) → Memory → Pc → Type 0
From i r log m p = (f : ℕ → Pc) → f i ≡ p → Ran i (record { mem = m; pc = f }) r log

module _ {i : ℕ} {r : Ref} {log : List (Op × Reply)} where
  then_runs : {m m' : Memory} {p p' : Pc} → Move m p m' p' → From i r log m' p' → From i r log m p
  then_runs {m} {m'} {p} {p'} mv rest f e =
      let o = rest (update f i p') (update_self f i p') in
      record {
        final = o.final;
        count = suc o.count;
        solo = go (subst (λ (x : Pc). Move m x m' p') (sym e) mv) o.solo;
        left = o.left;
        said = o.said;
        outside = o.outside;
      }

  ends : {m : Memory} → m.ref ≡ r → m.log ≡ log → From i r log m idle
  ends left said f e = record {
    final = _;
    count = 0;
    solo = stop;
    left = left;
    said = said;
    outside = e;
  }

module _ (i : ℕ) (m : Memory) (v : IsValid m.ref) (up : m.ref.sem ≡ 1) where
  -- The queue while the process has it.
  held : Holds m.ref.shared.message_max_count (with_sem m.ref 0) (contents m.ref)
  held = with_sem-Holds 0 (record { valid = v; same = refl; capacity = refl })

  put_room :
      (x : Mail)
      → m.ref.shared.message_count < m.ref.shared.message_max_count
      → From i (pushed m.ref x) (m.log ++ (put x, (success, none)) ∷ []) m idle
  put_room x room = then_runs (Move.begin_put x (waits m.ref up)) (
      then_runs (Move.room room) (
        then_runs (Move.copy_in (store_lem held x)) (
          then_runs Move.move_write (
            then_runs Move.counted_up
              (then_runs Move.post (ends (posts (pushed m.ref x) m.ref.sem up) refl))))))

  put_full :
      (x : Mail)
      → m.ref.shared.message_max_count ≤ m.ref.shared.message_count
      → From i m.ref (m.log ++ (put x, (message_size_reached, none)) ∷ []) m idle
  put_full x full =
      then_runs (Move.begin_put x (waits m.ref up))
        (then_runs (Move.full full) (then_runs Move.post (ends (posts m.ref m.ref.sem up) refl)))

  take_some :
      0 < m.ref.shared.message_count
      → From i (popped m.ref) (m.log ++ (take_one, (success, some (oldest m.ref))) ∷ []) m idle
  take_some some_left = then_runs (Move.begin_take (waits m.ref up)) (
      then_runs (Move.some_left some_left) (
        then_runs (Move.copy_out (load_lem held)) (
          then_runs Move.move_read (
            then_runs Move.counted_down
              (then_runs Move.post (ends (posts (popped m.ref) m.ref.sem up) refl))))))

  take_none :
      m.ref.shared.message_count ≡ 0
      → From i m.ref (m.log ++ (take_one, (message_queue_empty, none)) ∷ []) m idle
  take_none nothing =
      then_runs (Move.begin_take (waits m.ref up)) (
        then_runs (Move.empty nothing) (then_runs Move.post (ends (posts m.ref m.ref.sem up) refl)))

concludes :
    (i : ℕ) (s : System) (op : Op) (r : Ref) (reply : Reply)
    → Ran i s r (s.mem.log ++ (op, reply) ∷ [])
    → call s.mem.ref op ≡ ok (r, reply)
    → (n : ℕ) × (t : System) × (reply : Reply) × Solo i n s t
      × (call s.mem.ref op ≡ ok (t.mem.ref, reply))
      × (t.mem.log ≡ s.mem.log ++ (op, reply) ∷ [])
      × (t.pc i ≡ idle)
concludes i s op r reply o e = (
  o.count,
  o.final,
  reply,
  o.solo,
  e ∙ ap (λ (x : Ref). ok (x, reply)) (sym o.left),
  o.said,
  o.outside,
)

-- A call that no other process interrupts, on a valid queue whose semaphore is 1, by a process that
-- is outside: its accesses one after the other lead back outside, to the queue that `pq_enqueue` or
-- `pq_dequeue` leaves, and log the reply that it gives.
pub uninterrupted :
    (i : ℕ) (s : System) (op : Op)
    → IsValid s.mem.ref
    → s.mem.ref.sem ≡ 1
    → s.pc i ≡ idle
    → (n : ℕ) × (t : System) × (reply : Reply) × Solo i n s t
      × (call s.mem.ref op ≡ ok (t.mem.ref, reply))
      × (t.mem.log ≡ s.mem.log ++ (op, reply) ∷ [])
      × (t.pc i ≡ idle)
uninterrupted i s (put x) v up out =
    elim (dec_lt s.mem.ref.shared.message_count s.mem.ref.shared.message_max_count) [
      | yes room ↦
          concludes i s (put x) _ _ (put_room i s.mem v up x room s.pc out)
            (rw (enqueue-room v (omega arith) x room) refl)
      | no full ↦
          concludes i s (put x) _ _ (put_full i s.mem v up x (omega arith) s.pc out)
            (rw (enqueue-full v (omega arith) x (omega arith)) refl)
    ]
uninterrupted i s take_one v up out = elim (dec_lt 0 s.mem.ref.shared.message_count) [
  | yes some_left ↦
      concludes i s take_one _ _ (take_some i s.mem v up some_left s.pc out)
        (rw (dequeue-some v (omega arith) some_left) refl)
  | no nothing ↦
      concludes i s take_one _ _ (take_none i s.mem v up (omega arith) s.pc out)
        (rw (dequeue-empty v (omega arith) (omega arith)) refl)
]

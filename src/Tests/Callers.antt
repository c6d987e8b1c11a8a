-- ===== src/Tests/Callers.antt =====
-- Two processes at a concrete queue.
use native.Mathlib.Decide.{ℕ_discrete}
use comfirm_dmarc_report_ser.Common.{ℕ, ◌≤◌, ◌≡◌, ◌≢◌, refl, [], ◌∷◌, arith}
use comfirm_dmarc_report_ser.Queue.{semaphore_wait, load_slot, semaphore_post}
use comfirm_dmarc_report_ser.Queue.Spec
use comfirm_dmarc_report_ser.Queue.Spec.{Content, put, take_one, Reply}
use comfirm_dmarc_report_ser.Queue.Callers.{
  idle, take_check, take_copy, take_advance, take_count, advance_read, System, Move, Step, Reach,
  here, later, start, update, Solo, reopened,
}
use comfirm_dmarc_report_ser.Queue.Callers.Spec.{ops, replies, Agrees}
use comfirm_dmarc_report_ser.Queue.Callers.Inv.{with_sem}
use comfirm_dmarc_report_ser.Queue.Callers.Safety.{linearizable, mutual_exclusion}
use comfirm_dmarc_report_ser.Queue.Callers.Crash.{crashed, kept, crash_keeps, crash_breaks}
use comfirm_dmarc_report_ser.Queue.Inv.{IsValid}
use comfirm_dmarc_report_ser.Queue.Refine.{contents}
use comfirm_dmarc_report_ser.Queue.Callers.Progress.{holder_finishes}
use comfirm_dmarc_report_ser.Queue.Callers.Reopened.{reopened_admits_two}
use comfirm_dmarc_report_ser.Tests.Data.{mail_a, mail_b, queue, queue-IsValid}

-- Process 1 is inside of `pq_dequeue`.
abbrev taking : System
taking = record {
  mem = record { ref = with_sem queue 0; log = [] };
  pc = update (start queue).pc 1 take_check;
}

taking-Reach : Reach queue taking
unfolding semaphore_wait
taking-Reach = later here (Step.pick 1 (Move.begin_take refl))

-- Process 1 has taken the mail, and process 2 is inside of `pq_enqueue`.
abbrev after_take : (s : System) × Reach queue s
unfolding semaphore_wait load_slot semaphore_post ℕ_discrete
after_take = (
  _,
  later
      (later
        (later
          (later
            (later (later taking-Reach (Step.pick 1 (Move.some_left (omega arith))))
              (Step.pick 1 (Move.copy_out refl)))
            (Step.pick 1 Move.move_read))
          (Step.pick 1 Move.counted_down))
        (Step.pick 1 Move.post))
      (Step.pick 2 (Move.begin_put mail_b refl)),
)

linearizable_example :
    replies after_take.0.mem.log ≡ Spec.run 2 (mail_a ∷ []) (ops after_take.0.mem.log)
linearizable_example = linearizable queue-IsValid refl after_take.1

mutual_exclusion_example : taking.pc 2 ≡ idle
unfolding ℕ_discrete
mutual_exclusion_example =
    mutual_exclusion queue-IsValid refl 1 2 taking-Reach (λ e. cc) (omega arith)

holder_finishes_example :
    (t : System) × (n : ℕ) × Solo 1 n taking t × (n ≤ 5) × (t.pc 1 ≡ idle) × (t.mem.ref.sem ≡ 1)
unfolding ℕ_discrete
holder_finishes_example = holder_finishes queue-IsValid refl 1 taking-Reach (λ e. cc)

reopened_admits_two_example :
    (t : System) × Step (reopened taking) t × (t.pc 1 ≢ idle) × (t.pc 4 ≢ idle)
unfolding ℕ_discrete
reopened_admits_two_example =
    reopened_admits_two queue-IsValid refl 1 taking-Reach (λ e. cc) 4 (omega arith)

-- Process 1 has moved the read offset.
abbrev halfway : System
halfway = record {
  mem = record { ref = advance_read (with_sem queue 0); log = [] };
  pc = update (update (update taking.pc 1 take_copy) 1 (take_advance mail_a)) 1 (take_count mail_a);
}

halfway-Reach : Reach queue halfway
unfolding load_slot ℕ_discrete
halfway-Reach =
    later
      (later (later taking-Reach (Step.pick 1 (Move.some_left (omega arith))))
        (Step.pick 1 (Move.copy_out refl)))
      (Step.pick 1 Move.move_read)

crash_keeps_example :
    (q : Content) × Agrees 2 (mail_a ∷ []) taking.mem.log q
    × ((j : ℕ) → (crashed taking 1).pc j ≡ idle)
    × ((crashed taking 1).mem.ref.sem ≡ 1)
    × IsValid (crashed taking 1).mem.ref
    × (contents (crashed taking 1).mem.ref ≡ kept 2 q take_check)
unfolding ℕ_discrete
crash_keeps_example = crash_keeps queue-IsValid refl 1 taking-Reach (λ e. cc) refl

crash_breaks_example :
    ((j : ℕ) → (crashed halfway 1).pc j ≡ idle)
    × ((crashed halfway 1).mem.ref.sem ≡ 1)
    × (¬ IsValid (crashed halfway 1).mem.ref)
unfolding ℕ_discrete
crash_breaks_example = crash_breaks queue-IsValid refl 1 halfway-Reach (λ e. cc) refl (omega arith)

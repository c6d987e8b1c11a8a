-- ===== src/Queue/Callers/Reopened.antt =====
-- A queue that is opened again while it is in use.
use mathlib.Core.Path.{subst}
use comfirm_dmarc_report_ser.Common.{ℕ, ◌≡◌, ◌≢◌, refl, sym, ◌∙◌}
use comfirm_dmarc_report_ser.Common.Outcome.{ok}
use comfirm_dmarc_report_ser.Queue.{Ref, semaphore_wait, semaphore_init}
use comfirm_dmarc_report_ser.Queue.Inv.{IsValid}
use comfirm_dmarc_report_ser.Queue.Callers.{
  Pc, idle, take_check, with_ref, Move, System, update, Step, Reach, reopened,
}
use comfirm_dmarc_report_ser.Queue.Callers.Inv.{with_sem}
use comfirm_dmarc_report_ser.Queue.Callers.Safety.{mutual_exclusion, update_self, update_ne}

waits_again : (r : Ref) → semaphore_wait (semaphore_init r) ≡ ok (with_sem r 0)
unfolding semaphore_wait semaphore_init
waits_again r = refl

take_check-ne : take_check ≢ idle
take_check-ne = λ e. cc

module _ {r : Ref} (v : IsValid r) (up : r.sem ≡ 1) {s : System} (i : ℕ) (reach : Reach r s)
    (inside : s.pc i ≢ idle) where
  -- While a process is inside of a call, `pq_init` by one more process lets any other process begin
  -- a `pq_dequeue` as well, for it sets the semaphore to 1 again.
  pub reopened_admits_two :
      (j : ℕ) → i ≢ j → (t : System) × Step (reopened s) t × (t.pc i ≢ idle) × (t.pc j ≢ idle)
  unfolding reopened
  reopened_admits_two j ne = (
    record { mem = with_ref s.mem (with_sem s.mem.ref 0); pc = update s.pc j take_check },
    Step.pick j (
        subst
          (λ (p : Pc). Move (reopened s).mem p (with_ref s.mem (with_sem s.mem.ref 0)) take_check)
          (sym (mutual_exclusion v up i j reach inside ne))
          (Move.begin_take (waits_again s.mem.ref))),
    λ e. inside (sym (update_ne s.pc j i take_check (λ g. ne (sym g))) ∙ e),
    λ e. take_check-ne (sym (update_self s.pc j take_check) ∙ e),
  )

-- ===== src/Queue/Callers/Safety.antt =====
-- What holds at every moment of the processes that share a queue.
use native.Mathlib.Decide.{ℕ_discrete}
use mathlib.Core.Path.{subst}
use mathlib.Core.Logic.{if_pos, if_neg}
use comfirm_dmarc_report_ser.Common.{ℕ, ◌<◌, ◌≡◌, ◌≢◌, refl, sym, ap, ◌∙◌, ◌⊎◌, inl, inr, arith}
use comfirm_dmarc_report_ser.Common.Outcome.{ok}
use comfirm_dmarc_report_ser.Queue.{Ref, semaphore_wait}
use comfirm_dmarc_report_ser.Queue.Inv.{IsValid}
use comfirm_dmarc_report_ser.Queue.Refine.{contents}
use comfirm_dmarc_report_ser.Queue.Spec
use comfirm_dmarc_report_ser.Queue.Spec.{Content, Op, Reply}
use comfirm_dmarc_report_ser.Queue.Callers.{
  Pc, idle, put_check, put_copy, put_advance, put_count, take_check, take_copy, take_advance,
  take_count, leave, Memory, Move, System, update, Step, Reach, here, later,
}
use comfirm_dmarc_report_ser.Queue.Callers.Spec.{ops, replies, replies-run}
use comfirm_dmarc_report_ser.Queue.Callers.Inv.{At}
use comfirm_dmarc_report_ser.Queue.Callers.Moves.{Moved, Move-At}

-- All processes but `owner` are outside of the calls.
pub record Safe (limit : ℕ) (q0 : Content) (s : System) : Type 0 where
  pub owner : ℕ
  pub others : (j : ℕ) → j ≢ owner → s.pc j ≡ idle
  pub moved : Moved limit q0 s.mem (s.pc owner)

wait-pos : {r' : Ref} (r : Ref) → semaphore_wait r ≡ ok r' → 0 < r.sem
unfolding semaphore_wait
wait-pos r h = ground arith

-- A process that is outside goes in only while the semaphore is up,
enters : {m m' : Memory} {p p' : Pc} → Move m p m' p' → p ≡ idle → 0 < m.ref.sem
enters {m = m} (Move.begin_put x e) h = wait-pos m.ref e
enters {m = m} (Move.begin_take e) h = wait-pos m.ref e
enters (Move.full _) h = cc
enters (Move.room _) h = cc
enters (Move.copy_in _) h = cc
enters Move.move_write h = cc
enters Move.counted_up h = cc
enters (Move.empty _) h = cc
enters (Move.some_left _) h = cc
enters (Move.copy_out _) h = cc
enters Move.move_read h = cc
enters Move.counted_down h = cc
enters Move.post h = cc

-- and while one is inside, it is down.
At-down :
    (limit : ℕ) (m : Memory) (p : Pc) (q : Content) → At limit m p q → (p ≡ idle) ⊎ (m.ref.sem ≡ 0)
At-down limit m idle q h = inl refl
At-down limit m (put_check x) q h = inr h.0
At-down limit m (put_copy x) q h = inr h.0
At-down limit m (put_advance x) q h = inr (ap (λ (t : Ref). t.sem) h.4 ∙ h.1)
At-down limit m (put_count x) q h = inr (ap (λ (t : Ref). t.sem) h.4 ∙ h.1)
At-down limit m take_check q h = inr h.0
At-down limit m take_copy q h = inr h.0
At-down limit m (take_advance x) q h = inr h.0
At-down limit m (take_count x) q h = inr (ap (λ (t : Ref). t.sem) h.5 ∙ h.1)
At-down limit m (leave op reply) q h = inr h.0

pub update_self : (f : ℕ → Pc) (i : ℕ) (p : Pc) → update f i p i ≡ p
update_self f i p = if_pos _ refl p (f i)

pub update_ne : (f : ℕ → Pc) (i j : ℕ) (p : Pc) → i ≢ j → update f i p j ≡ f j
update_ne f i j p h = if_neg _ h p (f j)

module _ {limit : ℕ} {q0 : Content} (s : System) (i : ℕ) {m : Memory} {p : Pc} where
  -- The owner, or a process that becomes it, makes the access.
  own :
      (safe : Moved limit q0 s.mem (s.pc i))
      → ((j : ℕ) → j ≢ i → s.pc j ≡ idle)
      → Move s.mem (s.pc i) m p
      → Safe limit q0 (record { mem = m; pc = update s.pc i p })
  own safe others mv = record {
    owner = i;
    others = λ j h. update_ne s.pc i j p (λ e. h (sym e)) ∙ others j h;
    moved =
        subst (Moved limit q0 m) (sym (update_self s.pc i p))
          (Move-At safe.left mv safe.agrees safe.there);
  }

  other_idle :
      (safe : Safe limit q0 s) → i ≢ safe.owner → Move s.mem (s.pc i) m p → s.pc safe.owner ≡ idle
  other_idle safe ne mv =
      elim (At-down limit s.mem (s.pc safe.owner) safe.moved.left safe.moved.there) [
        | inl e ↦ e
        | inr e ↦ absurd (omega (arith, enters mv (safe.others i ne), e))
      ]

  step :
      (safe : Safe limit q0 s)
      → Move s.mem (s.pc i) m p
      → Safe limit q0 (record { mem = m; pc = update s.pc i p })
  step safe mv = elim (ℕ_discrete i safe.owner) [
    | yes e ↦
        own (subst (λ (k : ℕ). Moved limit q0 s.mem (s.pc k)) (sym e) safe.moved)
          (λ j h. safe.others j (λ g. h (g ∙ sym e))) mv
    | no ne ↦
        let quiet : (j : ℕ) → s.pc j ≡ idle = (λ j. elim (ℕ_discrete j safe.owner) [
          | yes e ↦ ap s.pc e ∙ other_idle safe ne mv
          | no h ↦ safe.others j h
        ]) in
        own (subst (Moved limit q0 s.mem) (quiet safe.owner ∙ sym (quiet i)) safe.moved)
          (λ j h. quiet j) mv
  ]

-- Every queue that is valid when the processes open it.
module _ {r : Ref} (v : IsValid r) (up : r.sem ≡ 1) where
  Reach-Safe : {s : System} → Reach r s → Safe r.shared.message_max_count (contents r) s
  Reach-Safe here = record {
    owner = 0;
    others = λ j h. refl;
    moved = record {
      left = contents r;
      agrees = refl;
      there = (up, record { valid = v; same = refl; capacity = refl });
    };
  }
  Reach-Safe (later {s = s} before (Step.pick i mv)) = step s i (Reach-Safe before) mv

  -- The calls that have returned answered what a queue of that capacity answers to them, one after
  -- another in the order of their returns, from the mails of the queue at the start. So it is
  -- whatever way the accesses of the processes are interleaved, if the queue is valid at the start
  -- and its semaphore is 1.
  pub linearizable :
      {s : System}
      → Reach r s
      → replies s.mem.log ≡ Spec.run r.shared.message_max_count (contents r) (ops s.mem.log)
  linearizable {s = s} reach =
      replies-run _ (contents r) _ s.mem.log (Reach-Safe reach).moved.agrees

  inside-owner :
      {s : System} (safe : Safe r.shared.message_max_count (contents r) s) (i : ℕ)
      → s.pc i ≢ idle
      → i ≡ safe.owner
  inside-owner safe i h = elim (ℕ_discrete i safe.owner) [
    | yes e ↦ e
    | no ne ↦ absurd (h (safe.others i ne))
  ]

  -- While one process is inside of a call, every other one is outside, if the queue is valid when
  -- they open it and its semaphore is 1.
  pub mutual_exclusion : {s : System} (i j : ℕ) → Reach r s → s.pc i ≢ idle → i ≢ j → s.pc j ≡ idle
  mutual_exclusion i j reach inside ne =
      let safe = Reach-Safe reach in safe.others j (λ e. ne (inside-owner safe i inside ∙ sym e))

  pub inside-Moved :
      {s : System} (i : ℕ)
      → Reach r s
      → s.pc i ≢ idle
      → Moved r.shared.message_max_count (contents r) s.mem (s.pc i)
  inside-Moved {s} i reach h =
      let safe = Reach-Safe reach in
      subst (λ (k : ℕ). Moved r.shared.message_max_count (contents r) s.mem (s.pc k))
        (sym (inside-owner safe i h)) safe.moved

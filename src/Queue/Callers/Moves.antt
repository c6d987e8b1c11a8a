-- ===== src/Queue/Callers/Moves.antt =====
-- Each access of a call that has the queue to itself keeps what Queue/Callers/Inv says.
use mathlib.Core.Path.{subst}
use comfirm_dmarc_report_ser.Common.{
  ℕ, ◌+◌, ◌<◌, ◌≡◌, refl, sym, ap, ◌∙◌, [], ◌∷◌, ◌++◌, none, some, arith,
}
use comfirm_dmarc_report_ser.Common.Outcome.{ok-inj}
use comfirm_dmarc_report_ser.Data.{Mail}
use comfirm_dmarc_report_ser.Queue.{Ref, success, semaphore_post}
use comfirm_dmarc_report_ser.Queue.Inv.{popped}
use comfirm_dmarc_report_ser.Queue.Refine.{contents}
use comfirm_dmarc_report_ser.Queue.Spec.{Content, pop, put, take_one}
use comfirm_dmarc_report_ser.Queue.Callers.{
  Pc, leave, Memory, with_ref, advance_write, advance_read, count_up, count_down, Move,
}
use comfirm_dmarc_report_ser.Queue.Callers.Spec.{next, Agrees, Agrees-snoc}
use comfirm_dmarc_report_ser.Queue.Callers.Inv.{
  Holds, At, oldest, copied, with_sem-Holds, begun, Holds-pushed, Holds-popped, put_left, take_left,
  full_lem, room_lem, empty_lem, none_lem, some_lem, store_lem, load_lem,
}

-- The process after its access, and the log with it.
pub record Moved (limit : ℕ) (q0 : Content) (m : Memory) (p : Pc) : Type 0 where
  pub left : Content
  pub agrees : Agrees limit q0 m.log left
  pub there : At limit m p left

stay :
    {limit : ℕ} {q0 : Content} {m : Memory} {p : Pc} (q : Content)
    → Agrees limit q0 m.log q
    → At limit m p q
    → Moved limit q0 m p
stay q a h = record { left = q; agrees = a; there = h }

-- The counts at the ends of the two calls.
up_lem :
    {limit : ℕ} {q : Content} {r : Ref} (m : Memory) (x : Mail)
    → r.sem ≡ 0
    → Holds limit r q
    → r.shared.message_count < r.shared.message_max_count
    → m.ref ≡ advance_write (copied r x)
    → At limit (with_ref m (count_up m.ref)) (leave (put x) (success, none)) q
up_lem {limit} {q} {r} m x s h room e =
    put_left (with_ref m (count_up m.ref)) q x (room_lem h x room) (ap (λ (t : Ref). t.sem) e ∙ s)
      (subst (λ (t : Ref). Holds limit (count_up t) (q ++ x ∷ [])) (sym e) (Holds-pushed x h room))

down_lem :
    {limit : ℕ} {q : Content} {r : Ref} {x : Mail} (m : Memory)
    → r.sem ≡ 0
    → Holds limit r q
    → 0 < r.shared.message_count
    → x ≡ oldest r
    → m.ref ≡ advance_read r
    → At limit (with_ref m (count_down m.ref)) (leave take_one (success, some x)) q
down_lem {limit} {q} {r} {x} m s h room y e =
    take_left (with_ref m (count_down m.ref)) q
      (ap pop (some_lem h room) ∙ ap (λ (t : Mail). (success, some t, contents (popped r))) (sym y))
      (ap (λ (t : Ref). t.sem) e ∙ s)
      (subst (λ (t : Ref). Holds limit (count_down t) (contents (popped r))) (sym e)
        (Holds-popped h room))

posted :
    {limit : ℕ} {q : Content} (r : Ref)
    → r.sem ≡ 0
    → Holds limit r q
    → ((semaphore_post r).sem ≡ 1) × Holds limit (semaphore_post r) q
unfolding semaphore_post
posted r s h = (omega arith, with_sem-Holds (r.sem + 1) h)

pub Move-At :
    {limit : ℕ} {q0 : Content} {m m' : Memory} {p p' : Pc} (q : Content)
    → Move m p m' p'
    → Agrees limit q0 m.log q
    → At limit m p q
    → Moved limit q0 m' p'
Move-At {m = m} q (Move.begin_put x e) a h = stay q a (begun h.0 e h.1)
Move-At {m = m} q (Move.full {x = x} e) a h = stay q a (put_left m q x (full_lem h.1 x e) h.0 h.1)
Move-At q (Move.room e) a h = stay q a (h.0, h.1, e)
Move-At {m = m} q (Move.copy_in {x = x} e) a h =
    stay q a (m.ref, h.0, h.1, h.2, ok-inj (sym e ∙ store_lem h.1 x))
Move-At q (Move.move_write {x = x}) a h = stay q a (h.0, h.1, h.2, h.3, ap advance_write h.4)
Move-At {m = m} q (Move.counted_up {x = x}) a h = stay q a (up_lem m x h.1 h.2 h.3 h.4)
Move-At q (Move.begin_take e) a h = stay q a (begun h.0 e h.1)
Move-At {m = m} q (Move.empty e) a h =
    stay q a (take_left m q (empty_lem h.1 e) h.0 (none_lem h.1 e))
Move-At q (Move.some_left e) a h = stay q a (h.0, h.1, e)
Move-At q (Move.copy_out e) a h = stay q a (h.0, h.1, h.2, ok-inj (sym e ∙ load_lem h.1))
Move-At {m = m} q (Move.move_read) a h = stay q a (m.ref, h.0, h.1, h.2, h.3, refl)
Move-At {m = m} q (Move.counted_down {x = x}) a h = stay q a (down_lem m h.1 h.2 h.3 h.4 h.5)
Move-At {limit = limit} {q0 = q0} {m = m} q (Move.post {op = op} {reply = reply}) a h = record {
  left = next limit q op;
  agrees = Agrees-snoc limit q0 q m.log op reply a h.1;
  there = posted (m.ref) h.0 h.2;
}

-- ===== src/Worker/Rounds.antt =====
-- The main loop of a worker over the array of epoll is the loop over the events: src/worker.c.
use mathlib.Core.Path.{subst}
use comfirm_dmarc_report_ser.Common.{
  ℕ, suc, ◌+◌, ◌*◌, ◌≡◌, refl, sym, ap, ◌∙◌, fun_ext, List, [], ◌∷◌, ◌++◌, Option, none, some, ◌≤◌,
  arith, length, get_elem?, some-inj,
}
use comfirm_dmarc_report_ser.Common.Outcome.{Outcome, ok, fault, ◌>>=◌}
use comfirm_dmarc_report_ser.Connection.{Limits}
use comfirm_dmarc_report_ser.Events.{
  Ready, EventHandler, Memory, Heap, created_with, create, wait, has_rdhup,
}
use comfirm_dmarc_report_ser.Events.Wait.{
  length-pointers, length-behind, filled, wait-filled, is_closed-filled, get_fd-filled,
}
use comfirm_dmarc_report_ser.Worker.{Event, Worker, on_event, run}
use comfirm_dmarc_report_ser.Worker.Loop.{
  Meanwhile, event, pass, Round, round, main_loop, events_of, or_no_events, all_events, Fits,
}

-- The handler after a wait.
abbrev pub after : EventHandler → Option (List Ready) → EventHandler
after h none = h
after h (some es) = filled h es

pub length-after :
    (h : EventHandler) (ready : Option (List Ready))
    → 3 * length (or_no_events ready) ≤ length h.events
    → length (after h ready).events ≡ length h.events
length-after h none room = refl
length-after h (some es) room = length-behind es h.events room

module _ (lim : Limits) where
  bind_cong {ℓ κ} :
      {A : Type ℓ} {B : Type κ} (m : Outcome A) {f g : A → Outcome B}
      → ((a : A) → f a ≡ g a)
      → (m >>= f) ≡ (m >>= g)
  bind_cong m same = ap (λ k. m >>= k) (fun_ext same)

  bind_assoc {ℓ κ μ} :
      {A : Type ℓ} {B : Type κ} {C : Type μ} (m : Outcome A) (f : A → Outcome B) (g : B → Outcome C)
      → (m >>= f >>= g) ≡ (m >>= λ a. f a >>= g)
  bind_assoc (ok a) f g = refl
  bind_assoc (fault e) f g = refl

  pub run-append :
      (xs ys : List Event) (w : Worker)
      → run lim (xs ++ ys) w ≡ (run lim xs w >>= λ w'. run lim ys w')
  unfolding run
  run-append [] ys w = refl
  run-append (e ∷ xs) ys w =
      bind_cong (on_event lim e w) (λ w'. run-append xs ys w')
      ∙ sym (bind_assoc (on_event lim e w) (λ w'. run lim xs w') (λ w'. run lim ys w'))

  module _ (h : EventHandler) (es : List Ready) (during : ℕ → Meanwhile) where
    -- From the event at `i` on, where the events left are `later`.
    pass-run :
        (later : List Ready) (i : ℕ) (w : Worker)
        → ((j : ℕ) → get_elem? es (i + j) ≡ get_elem? later j)
        → pass lim (filled h es) during (length later) i w ≡ run lim (events_of later during i) w
    unfolding pass run
    pass-run [] i w rest = refl
    pass-run (e ∷ later) i w rest =
        simp (get_fd-filled h es i e here, is_closed-filled h es i e here)
          (bind_cong (on_event lim (event e.fd (has_rdhup e.events) (during i)) w)
            (λ w'. pass-run later (suc i) w' further))
      where
        here : get_elem? es i ≡ some e
        here = ap (get_elem? es) {x = i} {y = i + 0} (omega arith) ∙ rest 0

        further : (j : ℕ) → get_elem? es (suc i + j) ≡ get_elem? later j
        further j = ap (get_elem? es) {x = suc i + j} {y = i + suc j} (omega arith) ∙ rest (suc j)

  pub round-run :
      (h : EventHandler) (ready : Option (List Ready)) (during : ℕ → Meanwhile) (w : Worker)
      → 3 * length (or_no_events ready) ≤ length h.events
      → round lim (record { ready = ready; during = during }) h w
        ≡ (run lim (events_of (or_no_events ready) during 0) w >>= λ w'. ok (after h ready, w'))
  unfolding round run wait pass
  round-run h none during w room = refl
  round-run h (some es) during w room = simp (
    wait-filled h es room,
    pass-run h es during es 0 w (λ j. ap (get_elem? es) {x = 0 + j} {y = j} (omega arith)),
  )

  main_loop-run :
      (rs : List Round) (h : EventHandler) (w : Worker)
      → Fits (length h.events) rs
      → (main_loop lim rs h w >>= λ r. ok r.1) ≡ run lim (all_events rs) w
  unfolding main_loop run
  main_loop-run [] h w fits = refl
  main_loop-run (r ∷ rs) h w (room, fits) =
      ap (λ (m : Outcome (EventHandler × Worker)). m >>= rest >>= λ a. ok a.1)
        (round-run h r.ready r.during w room)
      ∙ ap (λ (m : Outcome (EventHandler × Worker)). m >>= λ a. ok a.1)
          (bind_assoc (run lim now w) (λ w'. ok (after h r.ready, w')) rest)
      ∙ bind_assoc (run lim now w) (λ w'. rest (after h r.ready, w')) (λ a. ok a.1)
      ∙ bind_cong (run lim now w) (λ w'. main_loop-run rs (after h r.ready) w' still)
      ∙ sym (run-append now (all_events rs) w)
    where
      now : List Event
      now = events_of (or_no_events r.ready) r.during 0

      rest : EventHandler × Worker → Outcome (EventHandler × Worker)
      rest (h', w') = main_loop lim rs h' w'

      still : Fits (length (after h r.ready).events) rs
      still = subst (λ (n : ℕ). Fits n rs) (sym (length-after h r.ready room)) fits

  -- The equation for a handler as `events_create` makes it.
  pub main_loop_lem :
      (m : Memory) (max_clients : ℕ) (heap heap' : Heap) (h : EventHandler) (rs : List Round)
      (w : Worker)
      → create m max_clients heap ≡ some (h, heap')
      → Fits (2 * max_clients) rs
      → (main_loop lim rs h w >>= λ r. ok r.1) ≡ run lim (all_events rs) w
  unfolding create
  main_loop_lem m max_clients heap heap' h rs w made fits =
      main_loop-run rs h w
        (subst (λ (n : ℕ). Fits n rs) (sym (length-created m.epoll_fd made)) fits)
    where
      length-created :
          (fd : Option ℕ)
          → created_with m max_clients heap fd ≡ some (h, heap')
          → length h.events ≡ 2 * max_clients
      length-created none e = cc
      length-created (some fd) e =
          ap (λ (x : EventHandler × Heap). length x.0.events) (sym (some-inj e))
          ∙ length-pointers max_clients m.event

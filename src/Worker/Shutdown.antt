-- ===== src/Worker/Shutdown.antt =====
-- The end of a worker that has handled an event: src/worker.c.
use mathlib.Core.Path.{subst}
use comfirm_dmarc_report_ser.Common.{
  true, ℕ, zero, suc, ◌*◌, ◌≤◌, ◌<◌, ◌≡◌, refl, sym, ap, ◌∙◌, ◌⊎◌, inl, inr, List, [], ◌∷◌, Option,
  none, some, arith, length, length-append,
}
use comfirm_dmarc_report_ser.Common.Outcome.{Outcome, ok, fault, bad_free, bind-eq-ok, ok-inj}
use comfirm_dmarc_report_ser.Connection.{Limits}
use comfirm_dmarc_report_ser.Events
use comfirm_dmarc_report_ser.Events.{
  Memory, created, created_with, create, Ready, EventHandler, Heap,
}
use comfirm_dmarc_report_ser.Events.Free.{NoAddress, free-NoAddress}
use comfirm_dmarc_report_ser.Worker.{Worker, run}
use comfirm_dmarc_report_ser.Worker.Loop.{
  Meanwhile, Round, round, main_loop, serve, worker_server, serve_with, ended, events_of,
  or_no_events, all_events, Fits,
}
use comfirm_dmarc_report_ser.Queue.{Ref}
use comfirm_dmarc_report_ser.Events.Wait.{length-pointers}
use comfirm_dmarc_report_ser.Worker.Early.{fresh}
use comfirm_dmarc_report_ser.Worker.Rounds.{main_loop_lem, after, length-after, round-run}

-- The flags and the descriptor of no event make an address that can be freed.
abbrev pub NoneAddress : Heap → List Ready → Type 0
NoneAddress heap [] = Unit
NoneAddress heap (e ∷ es) = NoAddress heap e.events e.fd × NoneAddress heap es

abbrev pub NoRoundAddress : Heap → List Round → Type 0
NoRoundAddress heap [] = Unit
NoRoundAddress heap (r ∷ rs) = NoneAddress heap (or_no_events r.ready) × NoRoundAddress heap rs

-- The array begins with an event.
record Begins (heap : Heap) (h : EventHandler) : Type 0 where
  low : ℕ
  high : ℕ
  words : List ℕ
  at : h.events ≡ low ∷ high ∷ words
  bad : NoAddress heap low high

module _ (lim : Limits) (heap : Heap) where
  -- A wait for at least one event makes it so, and every wait leaves it so.
  after-Begins :
      (h : EventHandler) (ready : Option (List Ready))
      → NoneAddress heap (or_no_events ready)
      → (0 < length (or_no_events ready)) ⊎ Begins heap h
      → Begins heap (after h ready)
  after-Begins h none bad (inl some_event) = absurd (omega arith)
  after-Begins h none bad (inr begins) = begins
  after-Begins h (some []) bad (inl some_event) = absurd (omega arith)
  after-Begins h (some []) bad (inr begins) = begins
  after-Begins h (some (e ∷ es)) bad _ = record {
    low = e.events;
    high = e.fd;
    words = _;
    at = refl;
    bad = bad.0;
  }

  round-after :
      (r : Round) (h h' : EventHandler) (w w' : Worker)
      → 3 * length (or_no_events r.ready) ≤ length h.events
      → round lim r h w ≡ ok (h', w')
      → h' ≡ after h r.ready
  round-after r h h' w w' room done =
      let (v, e, same) =
        bind-eq-ok (run lim (events_of (or_no_events r.ready) r.during 0) w)
          (λ v. ok (after h r.ready, v)) (sym (round-run lim h r.ready r.during w room) ∙ done) in
      ap (λ (p : EventHandler × Worker). p.0) (sym (ok-inj same))

  length-events_of :
      (es : List Ready) (during : ℕ → Meanwhile) (i : ℕ)
      → length (events_of es during i) ≡ length es
  length-events_of [] during i = refl
  length-events_of (e ∷ es) during i = ap suc (length-events_of es during (suc i))

  some_event_in :
      (r : Round) (rs : List Round)
      → 0 < length (all_events (r ∷ rs))
      → (0 < length (or_no_events r.ready)) ⊎ (0 < length (all_events rs))
  some_event_in r rs some_event = ground (
    arith,
    length-append (events_of (or_no_events r.ready) r.during 0) (all_events rs),
    length-events_of (or_no_events r.ready) r.during 0,
  )

  main_loop-Begins :
      (rs : List Round) (h h' : EventHandler) (w w' : Worker)
      → Fits (length h.events) rs
      → NoRoundAddress heap rs
      → (0 < length (all_events rs)) ⊎ Begins heap h
      → main_loop lim rs h w ≡ ok (h', w')
      → Begins heap h'
  unfolding main_loop
  main_loop-Begins [] h h' w w' fits bad (inl some_event) done = absurd (omega arith)
  main_loop-Begins [] h h' w w' fits bad (inr begins) done =
      subst (Begins heap) (ap (λ (p : EventHandler × Worker). p.0) (ok-inj done)) begins
  main_loop-Begins (r ∷ rs) h h' w w' (room, fits) (now, later) start done =
      let ((h1, w1), e, rest) = bind-eq-ok (round lim r h w) next done in
      let same = round-after r h h1 w w1 room e in
      main_loop-Begins rs h1 h' w1 w'
        (subst (λ (n : ℕ). Fits n rs)
          (sym (length-after h r.ready room)
            ∙ ap (λ (g : EventHandler). length g.events) (sym same))
          fits)
        later (begun h1 same start) rest
    where
      next : EventHandler × Worker → Outcome (EventHandler × Worker)
      next (g, v) = main_loop lim rs g v

      begun :
          (g : EventHandler)
          → g ≡ after h r.ready
          → (0 < length (all_events (r ∷ rs))) ⊎ Begins heap h
          → (0 < length (all_events rs)) ⊎ Begins heap g
      begun g same (inl some_event) = elim (some_event_in r rs some_event) [
        | inl here ↦ inr (subst (Begins heap) (sym same) (after-Begins h r.ready now (inl here)))
        | inr there ↦ inl there
      ]
      begun g same (inr begins) =
          inr (subst (Begins heap) (sym same) (after-Begins h r.ready now (inr begins)))

  free-Begins :
      (n : ℕ) (h : EventHandler) → Begins heap h → Events.free h (suc n) heap ≡ fault bad_free
  free-Begins n h b = free-NoAddress h n b.low b.high b.words heap b.at b.bad

  -- The main loop of a worker comes to its end, after rounds whose events had room in the array, of
  -- which there was at least one. Then `events_free` frees an address that is not allocated, if the
  -- flags and the descriptor of no event, read as an address, are NULL or allocated.
  shutdown_faults :
      (max_clients : ℕ) (rs : List Round) (h h' : EventHandler) (w w' : Worker)
      → 0 < max_clients
      → Fits (length h.events) rs
      → NoRoundAddress heap rs
      → 0 < length (all_events rs)
      → main_loop lim rs h w ≡ ok (h', w')
      → serve lim max_clients rs h heap w ≡ fault bad_free
  unfolding serve
  shutdown_faults zero rs h h' w w' some_clients fits bad some_event done = absurd (omega arith)
  shutdown_faults (suc n) rs h h' w w' some_clients fits bad some_event done =
      simp (done, free-Begins n h' (main_loop-Begins rs h h' w w' fits bad (inl some_event) done))

-- A worker process on a machine where the shared memory and epoll can be had: it attaches the memory,
-- sets up its connections and its events, handles all the events of its rounds, of which there is
-- one, and then frees an address that is not allocated. The events of each wait have room in the
-- array, the loop over all the events comes to its end, and the flags and the descriptor of no
-- event, read as an address, are NULL or allocated.
pub worker_server_faults :
    (lim : Limits) (m : Memory) (max_clients fd : ℕ) (queue : Option Ref) (rs : List Round)
    (heap : Heap) (w : Worker)
    → m.epoll_fd ≡ some fd
    → 0 < max_clients
    → Fits (2 * max_clients) rs
    → NoRoundAddress (created m max_clients fd heap).1 rs
    → 0 < length (all_events rs)
    → run lim (all_events rs) (fresh max_clients queue) ≡ ok w
    → worker_server lim true true m max_clients queue rs heap ≡ fault bad_free
unfolding worker_server serve_with create
worker_server_faults lim m k fd queue rs heap w has_fd some_clients fits bad some_event handled =
    let (h, heap') = created m k fd heap in
    let made : create m k heap ≡ some (h, heap') = ap (created_with m k heap) has_fd in
    let (p, done, _) =
      bind-eq-ok (main_loop lim rs h (fresh k queue)) (λ r. ok r.1)
        (main_loop_lem lim m k heap heap' h rs (fresh k queue) made fits ∙ handled) in
    let here : Fits (length h.events) rs =
      subst (λ (n : ℕ). Fits n rs) (sym (length-pointers k m.event)) fits in
    ap (serve_with lim k rs (fresh k queue)) made
    ∙ ap ended (
        shutdown_faults lim heap' k rs h p.0 (fresh k queue) p.1 some_clients here bad some_event
          done)

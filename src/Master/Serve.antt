-- ===== src/Master/Serve.antt =====
-- The loop of the master server and its signals: src/master_server.c.
use comfirm_dmarc_report_ser.Common.{
  ℕ, ◌*◌, ◌%◌, ◌<◌, not, ◌&&◌, ◌≡◌, ◌⊎◌, inl, inr, refl, sym, ◌∙◌, Bool, Bool-cases, true, false,
  if◌then◌else◌, List, [], ◌∷◌, Option, none, some,
}
use comfirm_dmarc_report_ser.Common.Outcome.{Outcome, ok, fault, null_deref, ◌>>=◌}
use comfirm_dmarc_report_ser.Connection.{Limits}
use comfirm_dmarc_report_ser.Connection.Send.{send_all}
use comfirm_dmarc_report_ser.Master.{worker_map, Accept, Served, on_fd, on_accept}
use comfirm_dmarc_report_ser.Master.Welcome.{accept_welcomes, welcome, Welcomed, nothing_held}
use comfirm_dmarc_report_ser.Queue.{Ref}

-- A signal that has a handler: SIGCHLD, or one that is to stop the server.
pub data Signal : Type 0 where
  child_exited stop : Signal

-- `signal_handler`, on `running` of the server that `master_serv` points to. Nothing sets that
-- pointer, which is NULL from the start of the process on.
unfoldable pub signal_handler : Signal → Option Bool → Outcome (Option Bool)
signal_handler child_exited server = ok server
signal_handler stop none = fault null_deref
signal_handler stop (some running) = ok (some false)

-- The clients that were served, and whether the process goes on: where `events_add_event_2` fails
-- the loop calls `error`, which is the C library's and ends the process.
pub record Loop : Type 0 where
  pub clients : List Served
  pub goes_on : Bool

-- After the body of the loop for one event, with what the rest of the loop does.
unfoldable pub after_client : Option Served → Outcome Loop → Outcome Loop
after_client none rest = rest
after_client (some s) rest =
    if s.watched
    then (rest >>= λ l. ok (record l { clients = s ∷ l.clients }))
    else ok (record { clients = s ∷ []; goes_on = false })

-- The loop over the events of one or more waits, of which each is a client to accept.
unfoldable pub accept_all : Limits → List ℕ → (ℕ → Option Ref) → List Accept → Outcome Loop
unfolding after_client
accept_all lim map queues [] = ok (record { clients = []; goes_on = true })
accept_all lim map queues (a ∷ as') =
    on_accept lim map queues a >>= λ s. after_client s (accept_all lim map queues as')

-- What `accept` returns is -1, or a descriptor that the map has.
abbrev pub Below : ℕ → Option ℕ → Type 0
Below n none = Unit
Below n (some fd) = fd < n

abbrev pub AllBelow : ℕ → List Accept → Type 0
AllBelow n [] = Unit
AllBelow n (a ∷ as') = Below n a.fd × AllBelow n as'

-- A client that got the welcome message, or whose descriptor is closed, just if a `send` failed.
pub record Greeted (lim : Limits) (max_workers : ℕ) (a : Accept) (fd : ℕ) (s : Served)
    : Type 0 where
  pub worker : s.worker ≡ fd % max_workers
  pub in_range : s.worker < max_workers
  pub empty : s.conn ≡ nothing_held
  pub welcomed : Welcomed lim s.sent s.hung_up
  pub sent :
      send_all lim.write_buffer_size a.io.send_works (welcome lim) ≡ some (s.sent, not s.hung_up)
  pub watched : s.watched ≡ (a.add_works && not s.hung_up)

-- The clients that were served are those that were accepted, in their order, up to the first one
-- whose descriptor could not be added to the events of its worker: that one ends the process.
pub data AllGreeted (lim : Limits) (max_workers : ℕ) : List Accept → Loop → Type 0 where
  none_left : AllGreeted lim max_workers [] (record { clients = []; goes_on = true })
  not_accepted :
      {a : Accept} {as' : List Accept} {l : Loop}
      → a.fd ≡ none
      → AllGreeted lim max_workers as' l
      → AllGreeted lim max_workers (a ∷ as') l
  greeted :
      {a : Accept} {as' : List Accept} {s : Served} {l : Loop} (fd : ℕ)
      → a.fd ≡ some fd
      → Greeted lim max_workers a fd s
      → (a.add_works ≡ true) × (s.hung_up ≡ false)
      → AllGreeted lim max_workers as' l
      → AllGreeted lim max_workers (a ∷ as') (record l { clients = s ∷ l.clients })
  ended :
      {a : Accept} {as' : List Accept} {s : Served} (fd : ℕ)
      → a.fd ≡ some fd
      → Greeted lim max_workers a fd s
      → (a.add_works ≡ false) ⊎ (s.hung_up ≡ true)
      → AllGreeted lim max_workers (a ∷ as') (record { clients = s ∷ []; goes_on = false })

on_accept-none :
    (lim : Limits) (map : List ℕ) (queues : ℕ → Option Ref) (a : Accept)
    → a.fd ≡ none
    → on_accept lim map queues a ≡ ok none
unfolding on_accept on_fd
on_accept-none lim map queues a e = simp e refl

both-true : (b c : Bool) → (b && not c) ≡ true → (b ≡ true) × (c ≡ false)
both-true true false h = (refl, refl)
both-true true true h = cc h
both-true false c h = cc h

one-false : (b c : Bool) → (b && not c) ≡ false → (b ≡ false) ⊎ (c ≡ true)
one-false true false h = cc h
one-false true true h = inr refl
one-false false c h = inl refl

-- Whatever the calls of `accept` and `send` do: the loop over the events of the listening socket
-- serves the clients that are accepted, in their order: each belongs to the worker whose number is
-- the descriptor modulo the number of workers, its temporary connection holds nothing any more, the
-- welcome message with the names of the configuration is sent as a response is, and the client got
-- all of it, or, just if a `send` of it failed, its descriptor is closed. The first client whose
-- descriptor is closed, or cannot be added to the events of the worker, is the last: then the
-- process ends. The descriptors are below twice `max_clients`, there is a worker, and the write
-- buffer holds at least one byte.
pub accept_all_welcomes :
    (lim : Limits) (max_workers max_clients : ℕ) (map : List ℕ) (queues : ℕ → Option Ref)
    (accepts : List Accept)
    → worker_map max_workers max_clients ≡ ok map
    → 0 < max_workers
    → 0 < lim.write_buffer_size
    → AllBelow (max_clients * 2) accepts
    → (l : Loop) × (accept_all lim map queues accepts ≡ ok l) × AllGreeted lim max_workers accepts l
unfolding accept_all after_client
accept_all_welcomes lim n c map queues [] made some_worker size_pos below = (_, refl, none_left)
accept_all_welcomes lim n c map queues (a ∷ as') made some_worker size_pos (small, below) =
    let (l, rest, all) =
      accept_all_welcomes lim n c map queues as' made some_worker size_pos below in
    by_fd a.fd refl small l rest all
  where
    by_fd :
        (fd : Option ℕ)
        → a.fd ≡ fd
        → Below (c * 2) fd
        → (l : Loop) → accept_all lim map queues as' ≡ ok l
        → AllGreeted lim n as' l
        → (l' : Loop) × (accept_all lim map queues (a ∷ as') ≡ ok l')
          × AllGreeted lim n (a ∷ as') l'
    by_fd none e small l rest all =
        (l, simp (on_accept-none lim map queues a e) rest, not_accepted e all)
    by_fd (some fd) e small l rest all =
        let (s, done, worker, in_range, empty, welcomed, sent, watched) =
          accept_welcomes lim n c map queues a fd made some_worker size_pos e small in
        let good : Greeted lim n a fd s = record {
          worker = worker;
          in_range = in_range;
          empty = empty;
          welcomed = welcomed;
          sent = sent;
          watched = watched;
        } in
        elim (Bool-cases s.watched) [
          | inl added ↦ (
            record l { clients = s ∷ l.clients },
            simp (done, added, rest) refl,
            greeted fd e good (both-true a.add_works s.hung_up (sym watched ∙ added)) all,
          )
          | inr closed ↦ (
            _,
            simp (done, closed) refl,
            ended fd e good (one-false a.add_works s.hung_up (sym watched ∙ closed)),
          )
        ]

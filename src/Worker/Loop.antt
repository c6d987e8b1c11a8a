-- ===== src/Worker/Loop.antt =====
-- The main loop of a worker over what epoll writes, from its start to its end: `worker_server` of
-- src/worker.c.
use comfirm_dmarc_report_ser.Common.{
  not, if◌then◌else◌, ℕ, zero, suc, ◌*◌, ◌≤◌, Bool, List, [], ◌∷◌, ◌++◌, Option, none, some, length,
}
use comfirm_dmarc_report_ser.Common.Outcome.{Outcome, ok, ◌>>=◌}
use comfirm_dmarc_report_ser.Connection.{Limits, Io}
use comfirm_dmarc_report_ser.Data.{Hdr}
use comfirm_dmarc_report_ser.Events
use comfirm_dmarc_report_ser.Events.{
  Memory, create, Ready, EventHandler, Heap, wait, get_fd, is_closed, has_rdhup,
}
use comfirm_dmarc_report_ser.Queue.{Ref}
use comfirm_dmarc_report_ser.Worker.Early.{fresh}
use comfirm_dmarc_report_ser.Worker.{Event, Worker, on_event}

-- What `malloc` returns and the system does while an event is handled.
pub record Meanwhile : Type 0 where
  pub memory : List Hdr
  pub io : Io

abbrev pub event : ℕ → Bool → Meanwhile → Event
event fd rdhup during = record { fd = fd; rdhup = rdhup; memory = during.memory; io = during.io }

-- The loop over the events of one wait: `n` of them are left, the next one is at `i`.
unfoldable pub pass : Limits → EventHandler → (ℕ → Meanwhile) → ℕ → ℕ → Worker → Outcome Worker
pass lim h during zero i w = ok w
pass lim h during (suc n) i w = do
  fd ← get_fd h i
  closed ← is_closed h i
  w' ← on_event lim (event fd closed (during i)) w
  pass lim h during n (suc i) w'

-- A round of the main loop: the events that epoll returns (`none` is -1), and what happens while
-- each is handled.
pub record Round : Type 0 where
  pub ready : Option (List Ready)
  pub during : ℕ → Meanwhile

-- There are no events where `events_wait` fails.
abbrev pub number : Option ℕ → ℕ
number none = 0
number (some n) = n

unfoldable pub round : Limits → Round → EventHandler → Worker → Outcome (EventHandler × Worker)
unfolding pass
round lim r h w = do (h', n) ← wait r.ready h; w' ← pass lim h' r.during (number n) 0 w; ok (h', w')

-- The main loop: a round for each time that the server is still running.
unfoldable pub main_loop :
    Limits → List Round → EventHandler → Worker → Outcome (EventHandler × Worker)
unfolding round
main_loop lim [] h w = ok (h, w)
main_loop lim (r ∷ rs) h w = do (h', w') ← round lim r h w; main_loop lim rs h' w'

-- The main loop, and the shutdown behind it.
unfoldable pub serve :
    Limits → ℕ → List Round → EventHandler → Heap → Worker → Outcome (Worker × Heap)
unfolding main_loop
serve lim max_clients rs h heap w = do
  (h', w') ← main_loop lim rs h w
  heap' ← Events.free h' max_clients heap
  ok (w', heap')

abbrev pub ended : Outcome (Worker × Heap) → Outcome (Option (Worker × Heap))
ended m = m >>= λ r. ok (some r)

unfoldable pub serve_with :
    Limits
    → ℕ
    → List Round
    → Worker
    → Option (EventHandler × Heap)
    → Outcome (Option (Worker × Heap))
unfolding serve
serve_with lim max_clients rs w none = ok none
serve_with lim max_clients rs w (some (h, heap)) = ended (serve lim max_clients rs h heap w)

-- `worker_server`, with whether `shmget` and `shmat` work, and the queue of the worker: what is left
-- where it exits with 0, and nothing where it exits with 1.
unfoldable pub worker_server :
    Limits
    → Bool
    → Bool
    → Memory
    → ℕ
    → Option Ref
    → List Round
    → Heap
    → Outcome (Option (Worker × Heap))
unfolding serve_with
worker_server lim shmget_works shmat_works m max_clients queue rs heap =
    if not shmget_works
    then ok none
    else if not shmat_works
    then ok none
    else serve_with lim max_clients rs (fresh max_clients queue) (create m max_clients heap)

-- The events of a wait, and of all the rounds, as the worker handles them.
abbrev pub events_of : List Ready → (ℕ → Meanwhile) → ℕ → List Event
events_of [] during i = []
events_of (e ∷ es) during i =
    event e.fd (has_rdhup e.events) (during i) ∷ events_of es during (suc i)

abbrev pub or_no_events : Option (List Ready) → List Ready
or_no_events none = []
or_no_events (some es) = es

abbrev pub all_events : List Round → List Event
all_events [] = []
all_events (r ∷ rs) = events_of (or_no_events r.ready) r.during 0 ++ all_events rs

-- The events of every round have room in an array of `words`.
abbrev pub Fits : ℕ → List Round → Type 0
Fits words [] = Unit
Fits words (r ∷ rs) = (3 * length (or_no_events r.ready) ≤ words) × Fits words rs

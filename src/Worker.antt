-- ===== src/Worker.antt =====
-- A worker process: the table of its connections and its main loop, src/worker.c, with
-- `connection_setup` of src/connection.c.
pub mod Inv
pub mod Keeps
pub mod Chat
pub mod Text
pub mod Pieces
pub mod Ready
pub mod Session
pub mod Early
pub mod Start
pub mod Loop
pub mod Rounds
pub mod Shutdown
pub mod Among
use comfirm_dmarc_report_ser.Common.{
  ℕ, ◌*◌, Bool, true, false, List, [], ◌∷◌, ◌++◌, Option, none, some, if◌then◌else◌, get_elem?, set,
  replicate,
}
use comfirm_dmarc_report_ser.Common.Outcome.{
  Outcome, ok, fault, out_of_bounds, unset_pointer, ◌>>=◌,
}
use comfirm_dmarc_report_ser.Data.{Hdr}
use comfirm_dmarc_report_ser.Connection
use comfirm_dmarc_report_ser.Connection.{
  Connection, Status, reading, closed, inactive, Limits, Io, Chunk, World,
}
use comfirm_dmarc_report_ser.Connection.Handle.{handle}
use comfirm_dmarc_report_ser.Queue.{Ref}

-- `conns[fd]`: as `connection_setup` leaves it, CONN_INACTIVE with pointers that nothing set, or as
-- the handling of an event left it.
pub data Entry : Type 0 where
  untouched : Entry
  known : Connection → Entry

-- `connection_setup`, for the configured `max_clients`.
unfoldable pub setup : ℕ → List Entry
setup max_clients = replicate (max_clients * 2) untouched

-- One of the events that `events_wait` returns: its descriptor, whether it has EPOLLRDHUP, what
-- `malloc` returns for the headers of a connection that starts, and what the system does meanwhile.
pub record Event : Type 0 where
  pub fd : ℕ
  pub rdhup : Bool
  pub memory : List Hdr
  pub io : Io

abbrev pub is_inactive : Status → Bool
is_inactive inactive = true
is_inactive _ = false

-- `connection_start`, then CONN_READING.
abbrev pub opened : List Hdr → Connection
opened memory = record (Connection.start memory) { status = reading }

-- What the loop does before `connection_handle`. On an entry that is still as it was set up,
-- CONN_CLOSED leads to `connection_reset`, which frees what the pointers hold.
unfoldable pub wake : Event → Entry → Outcome Connection
wake e untouched = if e.rdhup then fault unset_pointer else ok (opened e.memory)
wake e (known c) =
    if e.rdhup
    then ok (record c { status = closed })
    else if is_inactive c.status
    then ok (opened e.memory)
    else ok c

-- What an event led to: the bytes handed to `send`, and whether the descriptor was closed.
pub record Handled : Type 0 where
  pub fd : ℕ
  pub sent : List Chunk
  pub hung_up : Bool

-- The table, `msg_queue`, and what was done for the clients, oldest first.
pub record Worker : Type 0 where
  pub conns : List Entry
  pub queue : Option Ref
  pub handled : List Handled

-- A connection of the worker before it is handled.
abbrev pub world_of : Worker → Connection → World
world_of w c = record { conn = c; queue = w.queue; sent = []; hung_up = false }

abbrev pub settle : Worker → ℕ → World → Worker
settle w fd v = record {
  conns = set w.conns fd (known v.conn);
  queue = v.queue;
  handled = w.handled ++ record { fd = fd; sent = v.sent; hung_up = v.hung_up } ∷ [];
}

-- The body of the loop over the events, with what the table has at the descriptor.
unfoldable pub on_entry : Limits → Event → Worker → Option Entry → Outcome Worker
unfolding wake
on_entry lim e w none = fault out_of_bounds
on_entry lim e w (some entry) = do
  c ← wake e entry
  v ← handle lim e.io (world_of w c)
  ok (settle w e.fd v)

unfoldable pub on_event : Limits → Event → Worker → Outcome Worker
unfolding on_entry
on_event lim e w = on_entry lim e w (get_elem? w.conns e.fd)

-- The loop over the events of one or more calls of `events_wait`.
unfoldable pub run : Limits → List Event → Worker → Outcome Worker
run lim [] w = ok w
run lim (e ∷ es) w = on_event lim e w >>= λ w'. run lim es w'

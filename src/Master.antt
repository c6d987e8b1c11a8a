-- ===== src/Master.antt =====
-- The master process: which worker gets a client, and what is done with a client that it accepts,
-- src/master_server.c.
pub mod Welcome
pub mod Init
pub mod Start
pub mod Serve
use comfirm_dmarc_report_ser.Common.{
  ℕ, ◌*◌, ◌%◌, Bool, true, false, not, List, [], ◌∷◌, Option, none, some, ◌==◌, ◌&&◌, ltb,
  if◌then◌else◌, get_elem?,
}
use comfirm_dmarc_report_ser.Common.Outcome.{Outcome, ok, fault, out_of_bounds, zero_divisor, ◌>>=◌}
use comfirm_dmarc_report_ser.Common.Tabulate.{tabulate}
use comfirm_dmarc_report_ser.Connection
use comfirm_dmarc_report_ser.Connection.{Connection, Limits, Io, Chunk, World, reset}
use comfirm_dmarc_report_ser.Connection.Handle.{handle}
use comfirm_dmarc_report_ser.Data.{Hdr}
use comfirm_dmarc_report_ser.Queue.{Ref}

-- `worker_map` as `master_server_init` fills it: the number of the worker for each descriptor. The
-- remainder is taken only if there is a descriptor.
unfoldable pub worker_map : ℕ → ℕ → Outcome (List ℕ)
worker_map max_workers max_clients =
    if (max_workers == 0) && ltb 0 (max_clients * 2)
    then fault zero_divisor
    else ok (tabulate (max_clients * 2) (λ i. i % max_workers))

-- An event on the listening socket: what `accept` returns (`none` is -1), what `malloc` returns for
-- the headers, what the system does while the client is welcomed, and whether its descriptor can be
-- added to the events of the worker.
pub record Accept : Type 0 where
  pub fd : Option ℕ
  pub memory : List Hdr
  pub io : Io
  pub add_works : Bool

-- What became of a client: its worker, the bytes handed to `send`, the temporary connection when
-- it is freed, whether the descriptor was closed, and whether the worker hears of its events.
pub record Served : Type 0 where
  pub fd : ℕ
  pub worker : ℕ
  pub sent : List Chunk
  pub conn : Connection
  pub hung_up : Bool
  pub watched : Bool

-- `connection_free` resets the connection first; then `events_add_event_2`, which fails for a
-- descriptor that was closed.
abbrev pub served : Accept → ℕ → ℕ → World → Served
served a fd n v = record {
  fd = fd;
  worker = n;
  sent = v.sent;
  conn = reset v.conn;
  hung_up = v.hung_up;
  watched = a.add_works && not v.hung_up;
}

-- The branch of the loop for a descriptor, with the queue of each worker.
unfoldable pub serve : Limits → (ℕ → Option Ref) → Accept → ℕ → Option ℕ → Outcome Served
serve lim queues a fd none = fault out_of_bounds
serve lim queues a fd (some n) =
    handle lim a.io
      (record { conn = Connection.start a.memory; queue = queues n; sent = []; hung_up = false })
    >>= λ v. ok (served a fd n v)

-- The body of the loop over the events, on what `accept` returns: no client if it fails.
unfoldable pub on_fd :
    Limits → List ℕ → (ℕ → Option Ref) → Accept → Option ℕ → Outcome (Option Served)
unfolding serve
on_fd lim map queues a none = ok none
on_fd lim map queues a (some fd) = serve lim queues a fd (get_elem? map fd) >>= λ s. ok (some s)

unfoldable pub on_accept : Limits → List ℕ → (ℕ → Option Ref) → Accept → Outcome (Option Served)
unfolding on_fd
on_accept lim map queues a = on_fd lim map queues a a.fd

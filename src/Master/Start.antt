-- ===== src/Master/Start.antt =====
-- The start of the server: `main` of src/master_server.c up to its loop.
pub mod Ends
use comfirm_dmarc_report_ser.Common.{
  ℕ, ◌+◌, ◌*◌, ◌<◌, ◌≡◌, ◌≢◌, Bool, true, false, not, List, [], ◌∷◌, Option, none, some, ltb, ◌==◌,
  length, if◌then◌else◌, Bytes,
}
use comfirm_dmarc_report_ser.Common.Int.{ℤ, pos, negsuc}
use comfirm_dmarc_report_ser.Common.Outcome.{Outcome, ok, fault, unset_pointer, ◌>>=◌}
use comfirm_dmarc_report_ser.Config
use comfirm_dmarc_report_ser.Config.{Config, load_default, load, copy}
use comfirm_dmarc_report_ser.Events
use comfirm_dmarc_report_ser.Events.{Memory, Heap, EventHandler, Control, create, add_event}
use comfirm_dmarc_report_ser.Master.Init.{MasterServer, master_server_init}
use comfirm_dmarc_report_ser.Socket
use comfirm_dmarc_report_ser.Socket.{System, Options, socket_listen}
use comfirm_dmarc_report_ser.Worker.Start.{Machine}

-- What `getopt` returns in turn: `-c` with its argument, `?`, and the options that do nothing.
pub data Argument : Type 0 where
  config_path : Bytes → Argument
  unknown ignored : Argument

-- What the process is given by the system: how `fork` returns (0 in the child), which calls work,
-- the texts of the files, and the descriptor of the
-- listening socket.
pub record Launch : Type 0 where
  pub arguments : List Argument
  pub file : Bytes → Option Bytes
  pub machine : Machine
  pub is_child : Bool
  pub setsid_works : Bool
  pub chdir_works : Bytes → Bool
  pub chroot_works : Bytes → Bool
  pub memory : Memory
  pub heap : Heap
  pub sockets : System
  pub listen_fd : ℕ
  pub listen_options : Options
  pub control_works : Control → Bool

-- A step of the start: the process exits with a status, or goes on.
pub data Step (A : Type 0) : Type 0 where
  exit : ℕ → Step A
  next : A → Step A

module _ {A B : Type 0} where
  abbrev pub after_step : Step A → (A → Outcome (Step B)) → Outcome (Step B)
  after_step (exit status) f = ok (exit status)
  after_step (next a) f = f a

  infixl 5 ◌>=>◌
  abbrev pub ◌>=>◌ : Outcome (Step A) → (A → Outcome (Step B)) → Outcome (Step B)
  m >=> f = m >>= λ s. after_step s f

-- A call whose failure ends the process with the status 1.
abbrev pub or_exit : Bool → Outcome (Step (Unit {0}))
or_exit true = ok (next tt)
or_exit false = ok (exit 1)

abbrev pub found_or_exit : {A : Type 0} → Option A → Outcome (Step A)
found_or_exit none = ok (exit 1)
found_or_exit (some a) = ok (next a)

-- The loop over the arguments: the path of the configuration file, which nothing sets without `-c`.
unfoldable pub parse_arguments : List Argument → Option Bytes → Step (Option Bytes)
parse_arguments [] path = next path
parse_arguments (config_path p ∷ args) path = parse_arguments args (some p)
parse_arguments (unknown ∷ args) path = exit 1
parse_arguments (ignored ∷ args) path = parse_arguments args path

-- A pointer that may be unset.
abbrev pub is_set : {A : Type 0} → Option A → Outcome A
is_set none = fault unset_pointer
is_set (some a) = ok a

-- A number of the configuration, as a bound of loops that count from 0. The configured size of the
-- queue is taken not to be negative.
abbrev pub count : ℤ → ℕ
count (pos n) = n
count (negsuc n) = 0

abbrev pub is_zero : ℤ → Bool
is_zero (pos n) = n == 0
is_zero (negsuc n) = false

-- What `config_load` returns.
abbrev pub loaded : ℤ × Config → Outcome (Step Config)
loaded (pos _, conf) = ok (next conf)
loaded (negsuc _, conf) = ok (exit 1)

unfoldable pub init_server : Launch → Config → Outcome (Step MasterServer)
init_server l conf =
    master_server_init l.machine conf.queue_file (count conf.queue_size) (count conf.max_workers)
      (count conf.max_clients)
    >>= found_or_exit

-- `daemonize`, where it is configured: the parent exits, and so does the process if `fork` fails.
unfoldable pub daemonize : Launch → Config → Outcome (Step (Unit {0}))
daemonize l conf =
    if is_zero conf.daemonize
    then ok (next tt)
    else if l.is_child
    then or_exit l.setsid_works
    else ok (exit 0)

-- The directory that the server works in, "/" where no other is configured.
unfoldable pub enter_root : Launch → Config → Outcome (Step (Unit {0}))
enter_root l conf =
    if ltb 0 (length conf.chroot)
    then (or_exit (l.chdir_works conf.chroot) >=> λ _. or_exit (l.chroot_works conf.chroot))
    else or_exit (l.chdir_works (47 ∷ []))

-- The server that is up: what is called when it enters its loop.
pub record Up : Type 0 where
  pub master : MasterServer
  pub config : Config
  pub events : EventHandler
  pub heap : Heap
  pub calls : List Socket.Call

module _ (atoi : Bytes → ℤ) where
  abbrev pub up : MasterServer → Config → EventHandler × Heap → List Socket.Call → Up
  up s conf (h, heap) calls = record {
    master = s;
    config = conf;
    events = h;
    heap = heap;
    calls = calls;
  }

  -- `server_init` sets `server_socket` and leaves `srv->config` unset; `dest` is what it happens to
  -- point to.
  -- Then `config_copy`, `socket_listen` and `events_add_event`.
  unfoldable pub listen :
      Launch → MasterServer → Config → EventHandler × Heap → Option Config → Outcome (Step Up)
  listen l s conf events dest = do
    d ← is_set dest
    let c = copy atoi d conf in
        let r =
          socket_listen l.sockets (count c.listen_port) (count c.max_pending) l.listen_options in
        or_exit r.success >=> λ _.
        or_exit (l.control_works (add_event l.listen_fd)) >=> λ _. ok (next (up s c events r.calls))

  -- From the loaded configuration on.
  unfoldable pub start_with : Launch → Config → Option Config → Outcome (Step Up)
  unfolding init_server daemonize enter_root listen
  start_with l conf dest = init_server l conf >=> λ s. daemonize l conf >=> λ _.
      enter_root l conf >=> λ _.
      found_or_exit (create l.memory (count conf.max_clients) l.heap) >=> λ events.
      listen l s conf events dest

  -- From the parsed arguments on: the path must be set.
  unfoldable pub start_at : Launch → Option Config → Bytes → Outcome (Step Up)
  unfolding start_with
  start_at l dest path =
      load atoi (l.file path) load_default >>= loaded >=> λ conf. start_with l conf dest

  -- `main` up to the start of the workers. Nothing sets `srv->config`: `dest` is the `config` that it
  -- happens to point to, or `none` where what is behind it cannot be written.
  unfoldable pub start : Launch → Option Config → Outcome (Step Up)
  unfolding start_at parse_arguments
  start l dest =
      after_step (parse_arguments l.arguments none) (λ path. is_set path >>= start_at l dest)

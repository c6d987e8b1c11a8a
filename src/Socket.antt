-- ===== src/Socket.antt =====
-- The listening socket and the options of a client's socket: src/socket.c, as the calls of the system
-- that it makes, each of which may fail.
pub mod Listen
use Prim.Native.Nat.{bit_or}
use comfirm_dmarc_report_ser.Common.{
  ℕ, Bool, true, false, List, [], ◌∷◌, ◌++◌, Option, none, some, if◌then◌else◌,
}

-- `socket`, `setsockopt` with its option and value, `fcntl`, `bind` with the port, and `listen`.
pub data Call : Type 0 where
  make_socket reuse_addr quickack get_flags : Call
  nodelay send_buffer receive_buffer : ℕ → Call
  set_flags bind listen : ℕ → Call

-- What the calls of a socket's options read of `master_srv->config`.
pub record Options : Type 0 where
  pub tcp_nodelay : ℕ
  pub write_buffer_size : ℕ
  pub read_buffer_size : ℕ

-- Whether each call works (does not return -1), and the flags of the descriptor (`none` is -1).
pub record System : Type 0 where
  pub works : Call → Bool
  pub flags : Option ℕ

-- What a function returns, 0 (`true`) or -1, and the calls that it made.
pub record Run : Type 0 where
  pub success : Bool
  pub calls : List Call

-- A call that ends the function with -1 where it fails.
abbrev pub guarded : System → Call → Run → Run
guarded os c rest =
    if os.works c
    then record { success = rest.success; calls = c ∷ rest.calls }
    else record { success = false; calls = c ∷ [] }

-- A function whose -1 ends the function that calls it.
abbrev pub then_run : Run → Run → Run
then_run first rest =
    if first.success
    then record { success = rest.success; calls = first.calls ++ rest.calls }
    else first

-- Calls whose result nobody looks at.
abbrev pub made : List Call → Run
made cs = record { success = true; calls = cs }

abbrev pub or_none : Option ℕ → ℕ
or_none none = 0
or_none (some n) = n

-- O_NONBLOCK
abbrev pub nonblock : ℕ
nonblock = 2048

-- `socket_setnonblocking`
unfoldable pub setnonblocking : System → Run
setnonblocking os = made (get_flags ∷ set_flags (bit_or (or_none os.flags) nonblock) ∷ [])

-- `socket_setup`
unfoldable pub setup : System → Options → Run
setup os o = guarded os (nodelay o.tcp_nodelay) (
    guarded os (send_buffer o.write_buffer_size)
      (guarded os (receive_buffer o.read_buffer_size) (made [])))

-- `socket_listen_setup`
unfoldable pub listen_setup : System → Options → Run
unfolding setnonblocking
listen_setup os o = guarded os (nodelay o.tcp_nodelay) (
    guarded os (send_buffer o.write_buffer_size)
      (guarded os (receive_buffer o.read_buffer_size) (setnonblocking os)))

-- `socket_listen`, for the configured port and number of waiting clients. The options are what
-- stands where a `master_server` has its configuration.
unfoldable pub socket_listen : System → ℕ → ℕ → Options → Run
unfolding listen_setup
socket_listen os port max_pending o = guarded os make_socket (
    guarded os reuse_addr (
      then_run (listen_setup os o)
        (guarded os (bind port) (guarded os (listen max_pending) (made (quickack ∷ []))))))

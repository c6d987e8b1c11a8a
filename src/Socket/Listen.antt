-- ===== src/Socket/Listen.antt =====
-- When the server listens.
use Prim.Native.Nat.{bit_or}
use comfirm_dmarc_report_ser.Common.{ℕ, ◌≡◌, Bool, true, ◌&&◌, List, [], ◌∷◌, arith}
use comfirm_dmarc_report_ser.Socket.{
  Call, make_socket, reuse_addr, quickack, get_flags, nodelay, send_buffer, receive_buffer,
  set_flags, bind, listen, Options, System, or_none, nonblock, listen_setup, socket_listen,
  setnonblocking,
}

-- The calls of `socket_listen` that must work, in their order.
abbrev pub needed : ℕ → ℕ → Options → List Call
needed port max_pending o =
    make_socket
    ∷ reuse_addr
    ∷ nodelay o.tcp_nodelay
    ∷ send_buffer o.write_buffer_size
    ∷ receive_buffer o.read_buffer_size
    ∷ bind port
    ∷ listen max_pending
    ∷ []

abbrev pub all_work : System → List Call → Bool
all_work os [] = true
all_work os (c ∷ cs) = os.works c && all_work os cs

-- `socket_listen` returns 0 just if all the calls that it needs work, whatever the calls that make
-- the socket non-blocking and acknowledge quickly do.
pub socket_listen_lem :
    (os : System) (port max_pending : ℕ) (o : Options)
    → (socket_listen os port max_pending o).success ≡ all_work os (needed port max_pending o)
unfolding socket_listen listen_setup setnonblocking
socket_listen_lem os port max_pending o = ground arith

-- If it returns 0, the socket was made, its options set, made non-blocking, bound and listened on, in
-- this order, and the buffer sizes come before the port is bound.
pub socket_listen-calls :
    (os : System) (port max_pending : ℕ) (o : Options)
    → (socket_listen os port max_pending o).success ≡ true
    → (socket_listen os port max_pending o).calls
      ≡ make_socket
        ∷ reuse_addr
        ∷ nodelay o.tcp_nodelay
        ∷ send_buffer o.write_buffer_size
        ∷ receive_buffer o.read_buffer_size
        ∷ get_flags
        ∷ set_flags (bit_or (or_none os.flags) nonblock)
        ∷ bind port
        ∷ listen max_pending
        ∷ quickack
        ∷ []
unfolding socket_listen listen_setup setnonblocking
socket_listen-calls os port max_pending o h = ground arith

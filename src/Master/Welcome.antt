-- ===== src/Master/Welcome.antt =====
-- A client that connects.
use native.Mathlib.Nat.{mod-lt}
use comfirm_dmarc_report_ser.Common.{
  ℕ, ◌*◌, ◌%◌, ◌<◌, ◌≡◌, refl, sym, ap, ◌∙◌, Bool, true, false, not, ◌&&◌, List, [], ◌++◌,
  append_assoc, Option, none, some, arith, get_elem?, codes, Bytes,
}
use comfirm_dmarc_report_ser.Common.Outcome.{ok, ok-inj}
use comfirm_dmarc_report_ser.Common.Tabulate.{tabulate, get_elem?-tabulate}
use comfirm_dmarc_report_ser.Connection.{
  Connection, Limits, Io, Chunk, World, start, reset, inactive, writing,
}
use comfirm_dmarc_report_ser.Connection.Handle.{
  handle, greet, write, conclude, next_request, finish, hang_up,
}
use comfirm_dmarc_report_ser.Connection.Handle.Welcome.{greet-text}
use comfirm_dmarc_report_ser.Connection.Handle.Inv.{waiting, gone}
use comfirm_dmarc_report_ser.Connection.Send.{send_all, send_all_lem, joined}
use comfirm_dmarc_report_ser.Data.{Hdr}
use comfirm_dmarc_report_ser.Queue.{Ref}
use comfirm_dmarc_report_ser.Request
use comfirm_dmarc_report_ser.Response
use comfirm_dmarc_report_ser.Response.{Response}
use comfirm_dmarc_report_ser.Master.{worker_map, Accept, Served, served, serve, on_fd, on_accept}

abbrev pub welcome : Limits → Bytes
welcome lim = codes "220 " ++ lim.hostname ++ codes " SMTP " ++ lim.server_name ++ codes "\r\n"

-- A connection that holds nothing.
abbrev pub nothing_held : Connection
nothing_held = record { request = none; response = none; status = inactive; read_buffer = none }

-- The client got the welcome message, or its descriptor is closed.
abbrev pub Welcomed : Limits → List Chunk → Bool → Type 0
Welcomed lim sent false = joined sent ≡ welcome lim
Welcomed lim sent true = Unit

-- A connection as it is accepted.
abbrev fresh : List Hdr → Option Ref → World
fresh memory queue = record { conn = start memory; queue = queue; sent = []; hung_up = false }

welcome_ends :
    (lim : Limits) (io : Io) (memory : List Hdr) (queue : Option Ref)
    → 0 < lim.write_buffer_size
    → (v : World) × (handle lim io (fresh memory queue) ≡ ok v)
      × Welcomed lim v.sent v.hung_up
      × (send_all lim.write_buffer_size io.send_works (welcome lim) ≡ some (v.sent, not v.hung_up))
unfolding handle write conclude next_request finish hang_up start Request.init Response.init
welcome_ends lim io memory queue size_pos =
    let (r, greeted, text) = greet-text lim io (fresh memory queue) Response.init refl in
    let ((sent, taken), e, whole, within, all_taken) =
      send_all_lem lim.write_buffer_size io.send_works r.text size_pos in
    after r (text ∙ simp append_assoc refl) greeted sent taken e whole
  where
    after :
        (r : Response)
        → r.text ≡ welcome lim
        → greet lim io (fresh memory queue)
          ≡ ok (record (fresh memory queue) {
            conn = record (start memory) { response = some r; status = writing };
          })
        → (sent : List Chunk) (taken : Bool)
        → send_all lim.write_buffer_size io.send_works r.text ≡ some (sent, taken)
        → (taken ≡ true → joined sent ≡ r.text)
        → (v : World) × (handle lim io (fresh memory queue) ≡ ok v)
          × Welcomed lim v.sent v.hung_up
          × (send_all lim.write_buffer_size io.send_works (welcome lim)
              ≡ some (v.sent, not v.hung_up))
    after r text greeted sent true e whole = (
      record (waiting (Request.init io.header_memory) Response.init none (fresh memory queue)) {
        sent = sent;
      },
      simp (greeted, e),
      whole refl ∙ text,
      ap (λ (t : Bytes). send_all lim.write_buffer_size io.send_works t) (sym text) ∙ e,
    )
    after r text greeted sent false e whole = (
      record (gone (fresh memory queue)) { sent = sent },
      simp (greeted, e),
      tt,
      ap (λ (t : Bytes). send_all lim.write_buffer_size io.send_works t) (sym text) ∙ e,
    )

mapped :
    {map : List ℕ} (n clients fd : ℕ)
    → worker_map n clients ≡ ok map
    → 0 < n
    → fd < clients * 2
    → get_elem? map fd ≡ some (fd % n)
unfolding worker_map
mapped n clients fd made some_worker small =
    ap (λ (m : List ℕ). get_elem? m fd) (ok-inj (sym made ∙ filled))
    ∙ get_elem?-tabulate (clients * 2) fd (λ i. i % n) small
  where
    filled : worker_map n clients ≡ ok (tabulate (clients * 2) (λ i. i % n))
    filled = ground arith

-- Whatever the calls of `send` do, a client that is accepted is handled to the end: it belongs to
-- the worker whose number is the descriptor modulo the number of workers, its temporary connection
-- holds nothing any more, the welcome message with the names of the configuration is sent as a
-- response is, and the client got all of it, or, just if a `send` of it failed, its descriptor is
-- closed; then the worker does not hear of it. The descriptor is below twice `max_clients`, there is a worker, and the write buffer holds at least one byte.
pub accept_welcomes :
    (lim : Limits) (max_workers max_clients : ℕ) (map : List ℕ) (queues : ℕ → Option Ref)
    (a : Accept) (fd : ℕ)
    → worker_map max_workers max_clients ≡ ok map
    → 0 < max_workers
    → 0 < lim.write_buffer_size
    → a.fd ≡ some fd
    → fd < max_clients * 2
    → (s : Served) × (on_accept lim map queues a ≡ ok (some s))
      × (s.worker ≡ fd % max_workers)
      × (s.worker < max_workers)
      × (s.conn ≡ nothing_held)
      × Welcomed lim s.sent s.hung_up
      × (send_all lim.write_buffer_size a.io.send_works (welcome lim)
          ≡ some (s.sent, not s.hung_up))
      × (s.watched ≡ (a.add_works && not s.hung_up))
unfolding on_accept on_fd serve reset
accept_welcomes lim max_workers max_clients map queues a fd made some_worker size_pos accepted
      small =
    let (v, done, told, open_still) =
      welcome_ends lim a.io a.memory (queues (fd % max_workers)) size_pos in
    (
      served a fd (fd % max_workers) v,
      simp (accepted, mapped max_workers max_clients fd made some_worker small, done),
      refl,
      mod-lt _ some_worker,
      refl,
      told,
      open_still,
      refl,
    )

-- ===== src/Worker/Early.antt =====
-- A client that closes before it sends anything.
use comfirm_dmarc_report_ser.Common.{
  ℕ, ◌*◌, ◌<◌, ◌≡◌, ◌≢◌, sym, ap, ◌∙◌, true, List, [], ◌∷◌, Option, none, some, get_elem?,
  get_elem?-set_ne, get_elem?-replicate,
}
use comfirm_dmarc_report_ser.Common.Outcome.{ok, fault, unset_pointer, ok-inj, bind-eq-ok}
use comfirm_dmarc_report_ser.Connection.{Limits}
use comfirm_dmarc_report_ser.Connection.Handle.{handle}
use comfirm_dmarc_report_ser.Queue.{Ref}
use comfirm_dmarc_report_ser.Worker.{
  Entry, untouched, known, Event, Worker, setup, world_of, wake, on_entry, on_event, run,
}

-- A worker as it starts.
abbrev pub fresh : ℕ → Option Ref → Worker
fresh max_clients queue = record { conns = setup max_clients; queue = queue; handled = [] }

-- None of the events has this descriptor.
abbrev pub Others : ℕ → List Event → Type 0
Others fd [] = Unit
Others fd (e ∷ es) = (e.fd ≢ fd) × Others fd es

on_entry-frame :
    (lim : Limits) (e : Event) (w w' : Worker) (fd : ℕ) (entry : Option Entry)
    → on_entry lim e w entry ≡ ok w'
    → e.fd ≢ fd
    → get_elem? w'.conns fd ≡ get_elem? w.conns fd
unfolding on_entry
on_entry-frame lim e w w' fd none h ne = cc
on_entry-frame lim e w w' fd (some entry) h ne =
    let (c, woken, rest) = bind-eq-ok (wake e entry) _ h in
    let (v, done, settled) = bind-eq-ok (handle lim e.io (world_of w c)) _ rest in
    ap (λ (x : Worker). get_elem? x.conns fd) (sym (ok-inj settled))
    ∙ get_elem?-set_ne w.conns e.fd fd (known v.conn) ne

pub on_event-frame :
    (lim : Limits) (e : Event) (w w' : Worker) (fd : ℕ)
    → on_event lim e w ≡ ok w'
    → e.fd ≢ fd
    → get_elem? w'.conns fd ≡ get_elem? w.conns fd
unfolding on_event
on_event-frame lim e w w' fd h ne = on_entry-frame lim e w w' fd (get_elem? w.conns e.fd) h ne

run-frame :
    (lim : Limits) (es : List Event) (w w' : Worker) (fd : ℕ)
    → run lim es w ≡ ok w'
    → Others fd es
    → get_elem? w'.conns fd ≡ get_elem? w.conns fd
unfolding run
run-frame lim [] w w' fd h o = ap (λ (x : Worker). get_elem? x.conns fd) (sym (ok-inj h))
run-frame lim (e ∷ es) w w' fd h o =
    let (w1, done, rest) = bind-eq-ok (on_event lim e w) _ h in
    run-frame lim es w1 w' fd rest o.1 ∙ on_event-frame lim e w w1 fd done o.0

-- Whatever events of other descriptors a worker has handled since its start: if the first event of
-- a descriptor below twice `max_clients` is that its client has closed, `connection_reset` is
-- called on pointers that nothing set.
pub early_close_faults :
    (lim : Limits) (max_clients : ℕ) (queue : Option Ref) (es : List Event) (w : Worker) (e : Event)
    → run lim es (fresh max_clients queue) ≡ ok w
    → Others e.fd es
    → e.fd < max_clients * 2
    → e.rdhup ≡ true
    → on_event lim e w ≡ fault unset_pointer
unfolding on_event on_entry wake setup
early_close_faults lim max_clients queue es w e h others small hup = simp (
  run-frame lim es (fresh max_clients queue) w e.fd h others,
  get_elem?-replicate (max_clients * 2) e.fd untouched small,
  hup,
)

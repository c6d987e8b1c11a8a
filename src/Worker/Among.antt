-- ===== src/Worker/Among.antt =====
-- A client's session among the events of others, in the main loop of src/worker.c.
use comfirm_dmarc_report_ser.Common.{
  ℕ, ◌≡◌, ◌≢◌, sym, ap, ◌∙◌, List, [], ◌∷◌, ◌++◌, append-nil, append_assoc, none, some, arith,
  get_elem?, Bytes, Option, if◌then◌else◌, ◌==◌,
}
use comfirm_dmarc_report_ser.Common.Outcome.{ok, bind-eq-ok, ok-inj}
use comfirm_dmarc_report_ser.Connection.{Limits}
use comfirm_dmarc_report_ser.Connection.Handle.{handle}
use comfirm_dmarc_report_ser.Connection.Send.{joined}
use comfirm_dmarc_report_ser.Data.{Mail}
use comfirm_dmarc_report_ser.Queue.{Ref}
use comfirm_dmarc_report_ser.Request.Headers.Print.{Field}
use comfirm_dmarc_report_ser.Worker.{
  Entry, Event, Handled, Worker, world_of, wake, on_entry, on_event, run,
}
use comfirm_dmarc_report_ser.Worker.Text.{replies, Delivered}

-- The events of a descriptor, among those that the loop handles, from a worker on: the others may
-- do whatever the loop can handle, and the queue is `q` when the last event of the descriptor comes,
-- if the earlier ones of the descriptor leave it as it is.
pub data Schedule (lim : Limits) (fd : ℕ) (q : Ref)
    : List Event → Worker → List Event → Type 0 where
  last : (e : Event) (w : Worker) → w.queue ≡ some q → Schedule lim fd q (e ∷ []) w (e ∷ [])
  own :
      (e e' : Event) (mine all : List Event) (w : Worker)
      → ((w1 : Worker)
          → on_event lim e w ≡ ok w1
          → w1.queue ≡ w.queue
          → Schedule lim fd q (e' ∷ mine) w1 all)
      → Schedule lim fd q (e ∷ e' ∷ mine) w (e ∷ all)
  other :
      (e : Event) (mine all : List Event) (w w1 : Worker)
      → e.fd ≢ fd
      → on_event lim e w ≡ ok w1
      → Schedule lim fd q mine w1 all
      → Schedule lim fd q mine w (e ∷ all)

replies-other :
    (fd : ℕ) (hs : List Handled) (h : Handled)
    → h.fd ≢ fd
    → replies fd (hs ++ h ∷ []) ≡ replies fd hs
replies-other fd [] h ne = ground arith
replies-other fd (x ∷ hs) h ne =
    ap (λ (t : Bytes). (if x.fd == fd then joined x.sent else []) ++ t) (replies-other fd hs h ne)

module _ (lim : Limits) (fd : ℕ) where
  on_entry-replies :
      (e : Event) (w w1 : Worker) (entry : Option Entry)
      → on_entry lim e w entry ≡ ok w1
      → e.fd ≢ fd
      → replies fd w1.handled ≡ replies fd w.handled
  unfolding on_entry
  on_entry-replies e w w1 none h ne = cc
  on_entry-replies e w w1 (some entry) h ne =
      let (c, woken, rest) = bind-eq-ok (wake e entry) _ h in
      let (v, done, settled) = bind-eq-ok (handle lim e.io (world_of w c)) _ rest in
      ap (λ (x : Worker). replies fd x.handled) (sym (ok-inj settled))
      ∙ replies-other fd w.handled (record { fd = e.fd; sent = v.sent; hung_up = v.hung_up }) ne

  on_event-replies :
      (e : Event) (w w1 : Worker)
      → on_event lim e w ≡ ok w1
      → e.fd ≢ fd
      → replies fd w1.handled ≡ replies fd w.handled
  unfolding on_event
  on_event-replies e w w1 h ne = on_entry-replies e w w1 (get_elem? w.conns e.fd) h ne

  module _ (f : Field) (fs : List Field) (body : Bytes) (q : Ref) where
    -- The events `all` bring the mail to the queue, and the client `said`.
    unfoldable pub Arrives : Bytes → List Event → Worker → Type 0
    Arrives said all w =
        (w' : Worker) × (m : Mail) × (run lim all w ≡ ok w') × Delivered fd f fs body said w w' q m

    pub Arrives-cons :
        (pre said : Bytes) (e : Event) (all : List Event) (w w1 : Worker)
        → on_event lim e w ≡ ok w1
        → replies fd w1.handled ≡ replies fd w.handled ++ pre
        → Arrives said all w1
        → Arrives (pre ++ said) (e ∷ all) w
    unfolding run Arrives
    Arrives-cons pre said e all w w1 done same (w', m, rest, d) = (
      w',
      m,
      simp (done, rest),
      record {
        queued = d.queued;
        behind = d.behind;
        holds = d.holds;
        replied =
            d.replied
            ∙ ap (λ (s : Bytes). s ++ said) same
            ∙ append_assoc (replies fd w.handled) pre said;
        hung_up = d.hung_up;
        freed = d.freed;
      },
    )

    pub Arrives-other :
        (said : Bytes) (e : Event) (all : List Event) (w w1 : Worker)
        → on_event lim e w ≡ ok w1
        → e.fd ≢ fd
        → Arrives said all w1
        → Arrives said (e ∷ all) w
    Arrives-other said e all w w1 done ne rest =
        Arrives-cons [] said e all w w1 done
          (on_event-replies e w w1 done ne ∙ sym (append-nil (replies fd w.handled))) rest

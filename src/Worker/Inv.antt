-- ===== src/Worker/Inv.antt =====
-- Every entry of a worker's table can be handled, and stays so.
use mathlib.Core.Path.{subst}
use comfirm_dmarc_report_ser.Common.{
  ℕ, zero, suc, ◌≡◌, refl, ap, ◌∙◌, List, [], ◌∷◌, Option, none, some, get_elem?, set, replicate,
  some-inj, Bytes,
}
use comfirm_dmarc_report_ser.Connection.{
  Connection, Status, started, reading, failed, writing, closed, inactive, Limits, World, buffered,
  reset,
}
use comfirm_dmarc_report_ser.Connection.Handle.{handle, read, receive}
use comfirm_dmarc_report_ser.Connection.Handle.Inv.{Live, Settled, waiting}
use comfirm_dmarc_report_ser.Request.{Request}
use comfirm_dmarc_report_ser.Response.{Response}
use comfirm_dmarc_report_ser.Worker.{Entry, untouched, known, Event, Worker, world_of}

-- A connection between two events: it waits with an empty buffer, or everything of it is freed.
abbrev pub Rests : Limits → Status → Connection → Type 0
Rests lim reading c = Live lim c × (buffered c ≡ [])
Rests lim inactive c = c ≡ reset c
Rests lim _ c = ⊥

abbrev pub Fine : Limits → Entry → Type 0
Fine lim untouched = Unit
Fine lim (known c) = Rests lim c.status c

-- Every entry of the table rests.
abbrev pub AllFine : Limits → List Entry → Type 0
AllFine lim [] = Unit
AllFine lim (entry ∷ entries) = Fine lim entry × AllFine lim entries

pub AllFine-get :
    (lim : Limits) (entries : List Entry) (i : ℕ) (entry : Entry)
    → AllFine lim entries
    → get_elem? entries i ≡ some entry
    → Fine lim entry
AllFine-get lim [] i entry a h = cc
AllFine-get lim (x ∷ xs) zero entry a h = subst (Fine lim) (some-inj h) a.0
AllFine-get lim (x ∷ xs) (suc i) entry a h = AllFine-get lim xs i entry a.1 h

pub AllFine-set :
    (lim : Limits) (entries : List Entry) (i : ℕ) (entry : Entry)
    → AllFine lim entries
    → Fine lim entry
    → AllFine lim (set entries i entry)
AllFine-set lim [] i entry a f = tt
AllFine-set lim (x ∷ xs) zero entry a f = (f, a.1)
AllFine-set lim (x ∷ xs) (suc i) entry a f = (a.0, AllFine-set lim xs i entry a.1 f)

pub AllFine-setup : (lim : Limits) (n : ℕ) → AllFine lim (replicate n untouched)
AllFine-setup lim zero = tt
AllFine-setup lim (suc n) = (tt, AllFine-setup lim n)

pub Settled-Rests : (lim : Limits) (s : Status) (v : World) → Settled lim s v → Rests lim s v.conn
Settled-Rests lim started v h = h
Settled-Rests lim reading v h = h
Settled-Rests lim failed v h = h
Settled-Rests lim writing v h = h
Settled-Rests lim closed v h = h
Settled-Rests lim inactive v h = h.0

-- A connection that waits, however its empty buffer is held.
empty_buffer :
    (lim : Limits) (e : Event) (w : World) (req : Request) (resp : Response) (x : Option Bytes)
    → buffered (waiting req resp x w).conn ≡ []
    → handle lim e.io (waiting req resp x w) ≡ handle lim e.io (waiting req resp none w)
unfolding handle read receive
empty_buffer lim e w req resp none h = refl
empty_buffer lim e w req resp (some []) h = refl
empty_buffer lim e w req resp (some (a ∷ b)) h = cc

pub waits_lem :
    (lim : Limits) (c : Connection) (l : Live lim c) (e : Event) (w : Worker)
    → c.status ≡ reading
    → buffered c ≡ []
    → handle lim e.io (world_of w c) ≡ handle lim e.io (waiting l.req l.resp none (world_of w c))
waits_lem lim c l e w s b =
    ap (λ (x : Connection). handle lim e.io (world_of w x)) fields
    ∙ empty_buffer lim e (world_of w c) l.req l.resp c.read_buffer b
  where
    fields : c ≡ (waiting l.req l.resp c.read_buffer (world_of w c)).conn
    fields = λ i. record {
      request = l.has_request i;
      response = l.has_response i;
      status = s i;
      read_buffer = c.read_buffer;
    }

-- ===== src/Worker/Text.antt =====
-- The bytes that a client sends and gets, over several events.
use mathlib.Core.Path.{subst}
use comfirm_dmarc_report_ser.Common.{
  ℕ, ◌<◌, ◌≡◌, refl, sym, ap, ◌∙◌, true, false, List, [], ◌∷◌, ◌++◌, append-nil, append_assoc, none,
  some, arith, length, length-append, get_elem?, Bytes, Bool, if◌then◌else◌, ◌==◌, ◌||◌,
}
use comfirm_dmarc_report_ser.Data.{Mail, header_max_len}
use comfirm_dmarc_report_ser.Connection.{Connection, reading, Chunk, inactive}
use comfirm_dmarc_report_ser.Connection.Send.{joined}
use comfirm_dmarc_report_ser.Connection.Mails.Queued.{Holds}
use comfirm_dmarc_report_ser.Queue.{Ref}
use comfirm_dmarc_report_ser.Queue.Inv.{pushed}
use comfirm_dmarc_report_ser.Queue.Refine.{contents}
use comfirm_dmarc_report_ser.Request.{Request}
use comfirm_dmarc_report_ser.Request.Commands.{grow}
use comfirm_dmarc_report_ser.Request.Commands.Collect.{Quiet, stored, store_all}
use comfirm_dmarc_report_ser.Request.Headers.Print.{Field, AllHdrs}
use comfirm_dmarc_report_ser.Response
use comfirm_dmarc_report_ser.Response.{Response}
use comfirm_dmarc_report_ser.Worker.{known, Event, Handled, Worker}

-- What was handed to `send` for a descriptor, and whether it was closed.
abbrev pub replies : ℕ → List Handled → Bytes
replies fd [] = []
replies fd (h ∷ hs) = (if h.fd == fd then joined h.sent else []) ++ replies fd hs

abbrev pub closes : ℕ → List Handled → Bool
closes fd [] = false
closes fd (h ∷ hs) = (if h.fd == fd then h.hung_up else false) || closes fd hs

pub replies-snoc :
    (fd : ℕ) (hs : List Handled) (sent : List Chunk) (b : Bool)
    → replies fd (hs ++ record { fd = fd; sent = sent; hung_up = b } ∷ [])
      ≡ replies fd hs ++ joined sent
replies-snoc fd [] sent b = ground (arith, append-nil (joined sent))
replies-snoc fd (h ∷ hs) sent b =
    ap (λ (t : Bytes). (if h.fd == fd then joined h.sent else []) ++ t) (replies-snoc fd hs sent b)
    ∙ sym (append_assoc _ (replies fd hs) (joined sent))

pub closes-snoc :
    (fd : ℕ) (hs : List Handled) (sent : List Chunk)
    → closes fd (hs ++ record { fd = fd; sent = sent; hung_up = true } ∷ []) ≡ true
closes-snoc fd [] sent = ground arith
closes-snoc fd (h ∷ hs) sent = ground (arith, closes-snoc fd hs sent)

-- A connection that waits for the rest of a request.
abbrev pub waiting_conn : Request → Connection
waiting_conn req = record {
  request = some req;
  response = some Response.init;
  status = reading;
  read_buffer = none;
}

abbrev pub free_conn : Connection
free_conn = record { request = none; response = none; status = inactive; read_buffer = none }

-- An event of this descriptor, with whole memory, on which every `send` works.
pub record Plain (fd : ℕ) (e : Event) : Type 0 where
  pub here : e.fd ≡ fd
  pub still_open : e.rdhup ≡ false
  pub start_memory : length e.memory ≡ header_max_len
  pub start_arrays : AllHdrs e.memory
  pub memory : length e.io.header_memory ≡ header_max_len
  pub works : (i : ℕ) → e.io.send_works i ≡ true

-- The events receive the bytes `t`, some at a time.
abbrev pub Pieces : ℕ → List Event → Bytes → Type 0
Pieces fd [] t = t ≡ []
Pieces fd (e ∷ es) t =
    Plain fd e
    × (b : Bytes) × (rest : Bytes) × (e.io.received ≡ some b)
    × (0 < length b)
    × (t ≡ b ++ rest)
    × Pieces fd es rest

pub Quiet-take : (t x y : Bytes) → Quiet t (x ++ y) → Quiet t x
Quiet-take t [] y q = tt
Quiet-take t (c ∷ x) y q = (q.0, Quiet-take (t ++ c ∷ []) x y q.1)

pub Quiet-drop : (t x y : Bytes) → Quiet t (x ++ y) → Quiet (t ++ x) y
Quiet-drop t [] y q = rw append-nil q
Quiet-drop t (c ∷ x) y q =
    subst (λ (s : Bytes). Quiet s y) (append_assoc t (c ∷ []) x) (Quiet-drop (t ++ c ∷ []) x y q.1)

-- A text without its last byte.
pub before_last :
    (x u : Bytes) (c d : ℕ) (r : Bytes)
    → u ++ d ∷ [] ≡ x ++ c ∷ r
    → (z : Bytes) × (u ≡ x ++ z) × (c ∷ r ≡ z ++ d ∷ [])
before_last [] u c d r e = (u, refl, sym e)
before_last (a ∷ x) [] c d r e =
    absurd (omega (arith, ap (λ (t : Bytes). length t) e, length-append x (c ∷ r)))
before_last (a ∷ x) (b ∷ u) c d r e = let (z, h, k) = before_last x u c d r (cc) in (z, cc, k)

pub store_all-open :
    (req : Request) (t : Bytes)
    → ((store_all req t).process ≡ req.process) × ((store_all req t).quit ≡ req.quit)
unfolding grow
store_all-open req [] = (refl, refl)
store_all-open req (c ∷ t) =
    let h = store_all-open (stored req c) t in (h.0 ∙ ground arith, h.1 ∙ ground arith)

-- What the last event of a mail leaves of a worker.
pub record Delivered (fd : ℕ) (f : Field) (fs : List Field) (body said : Bytes) (w w' : Worker)
    (q : Ref) (m : Mail) : Type 0 where
  pub queued : w'.queue ≡ some (pushed q m)
  pub behind : contents (pushed q m) ≡ contents q ++ m ∷ []
  pub holds : Holds m (f ∷ fs) body
  pub replied : replies fd w'.handled ≡ replies fd w.handled ++ said
  pub hung_up : closes fd w'.handled ≡ true
  pub freed : get_elem? w'.conns fd ≡ some (known free_conn)

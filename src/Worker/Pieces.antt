-- ===== src/Worker/Pieces.antt =====
-- The text of a mail, in as many reads as the network makes of it.
use mathlib.Core.Path.{subst}
use comfirm_dmarc_report_ser.Common.{
  ℕ, ◌+◌, ◌≤◌, ◌<◌, ◌≡◌, refl, sym, ap, ◌∙◌, true, false, List, [], ◌∷◌, ◌++◌, append-nil,
  append_assoc, none, some, arith, length, length-append, get_elem?, get_elem?-set_self, Bytes,
  codes, Bool,
}
use comfirm_dmarc_report_ser.Common.Outcome.{ok}
use comfirm_dmarc_report_ser.Data.{Hdr, Mail, header_max_len}
use comfirm_dmarc_report_ser.Connection.{Connection, Limits, World}
use comfirm_dmarc_report_ser.Connection.Send.{joined}
use comfirm_dmarc_report_ser.Connection.Handle.{handle}
use comfirm_dmarc_report_ser.Connection.Handle.Inv.{waiting}
use comfirm_dmarc_report_ser.Connection.Handle.Session.{IsMailText, HasRoom, handle_rest}
use comfirm_dmarc_report_ser.Queue.{Ref}
use comfirm_dmarc_report_ser.Request.{Request, data_len}
use comfirm_dmarc_report_ser.Request.Commands.{parse_at, parse_commands, scan}
use comfirm_dmarc_report_ser.Request.Commands.Collect.{
  Quiet, store_all, text-store_all, store_all-in_data, store_all-headers, scan-Quiet,
}
use comfirm_dmarc_report_ser.Request.Headers.Print.{Field, mail_text, AllHdrs}
use comfirm_dmarc_report_ser.Response
use comfirm_dmarc_report_ser.Response.{Response}
use comfirm_dmarc_report_ser.Worker.{
  known, Event, Worker, world_of, settle, on_event, wake, on_entry,
}
use comfirm_dmarc_report_ser.Worker.Chat.{handle_chat, going_on}
use comfirm_dmarc_report_ser.Worker.Text.{
  replies, closes, replies-snoc, closes-snoc, waiting_conn, Plain, Quiet-take, Quiet-drop,
  store_all-open, Delivered,
}

module _ (lim : Limits) (fd : ℕ) where
  -- An event on a connection that waits.
  pub on_event-waiting :
      (e : Event) (w : Worker) (req : Request) (v : World)
      → Plain fd e
      → get_elem? w.conns fd ≡ some (known (waiting_conn req))
      → handle lim e.io (world_of w (waiting_conn req)) ≡ ok v
      → on_event lim e w ≡ ok (settle w fd v)
  unfolding on_event on_entry wake
  on_event-waiting e w req v p at h =
      simp p.here (simp (at, p.still_open, h) (ap (λ (k : ℕ). ok (settle w k v)) p.here))

  module _ (write_pos : 0 < lim.write_buffer_size) (read_pos : 0 < lim.read_buffer_size) (f : Field)
      (fs : List Field) (body : Bytes) (t : IsMailText lim (f ∷ fs) body) where
    -- A request that has stored a part of the mail.
    pub record Collects (req : Request) (u : Bytes) : Type 0 where
      pub full : length req.headers ≡ header_max_len
      pub arrays : AllHdrs req.headers
      pub inside : req.in_data ≡ true
      pub incomplete : req.process ≡ false
      pub open_still : req.quit ≡ false
      pub whole : req.text ++ u ≡ mail_text (f ∷ fs) body ++ codes "\r\n.\r"
      pub quiet : Quiet req.text u

    pub Collects-more :
        (req : Request) (b z : Bytes) → Collects req (b ++ z) → Collects (store_all req b) z
    Collects-more req b z c =
        let keeps = store_all-open req b in
        record {
          full = ap (λ (hs : List Hdr). length hs) (store_all-headers req b) ∙ c.full;
          arrays = subst AllHdrs (sym (store_all-headers req b)) c.arrays;
          inside = store_all-in_data req b ∙ c.inside;
          incomplete = keeps.0 ∙ c.incomplete;
          open_still = keeps.1 ∙ c.open_still;
          whole =
              ap (λ (s : Bytes). s ++ z) (text-store_all req b)
              ∙ append_assoc req.text b z
              ∙ c.whole;
          quiet =
              subst (λ (s : Bytes). Quiet s z) (sym (text-store_all req b))
                (Quiet-drop req.text b z c.quiet);
        }

    -- The read that ends the mail.
    pub last_piece :
        (e : Event) (w : Worker) (req : Request) (q : Ref) (u : Bytes)
        → Plain fd e
        → get_elem? w.conns fd ≡ some (known (waiting_conn req))
        → Collects req u
        → e.io.received ≡ some (u ++ b'\n' ∷ [])
        → w.queue ≡ some q
        → HasRoom q
        → (w' : Worker) × (m : Mail) × (on_event lim e w ≡ ok w')
          × Delivered fd f fs body (codes "250 Ok: queued as nada\r\n") w w' q m
    unfolding Response.init
    last_piece e w req q u p at c got has r =
        let (v, m, done, queued, behind, holds, said, conn, hung) =
          handle_rest lim e.io p.memory (world_of w (waiting_conn req)) req Response.init q f fs
            body u p.works write_pos read_pos c.full c.arrays c.inside c.whole c.quiet t got has
            r in
        (
          settle w fd v,
          m,
          on_event-waiting e w req v p at done,
          record {
            queued = queued;
            behind = behind;
            holds = holds;
            replied =
                replies-snoc fd w.handled v.sent v.hung_up
                ∙ ap (λ (s : Bytes). replies fd w.handled ++ s) said;
            hung_up =
                ap
                  (λ (b : Bool).
                    closes fd (w.handled ++ record { fd = fd; sent = v.sent; hung_up = b } ∷ []))
                  hung
                ∙ closes-snoc fd w.handled v.sent;
            freed =
                get_elem?-set_self w.conns fd (known v.conn) at
                ∙ ap (λ (x : Connection). some (known x)) conn;
          },
        )

    -- A read that does not.
    pub next_piece :
        (e : Event) (w : Worker) (req : Request) (b z : Bytes)
        → Plain fd e
        → get_elem? w.conns fd ≡ some (known (waiting_conn req))
        → Collects req (b ++ z)
        → e.io.received ≡ some b
        → 0 < length b
        → (v : World) × (on_event lim e w ≡ ok (settle w fd v))
          × (v.conn ≡ waiting_conn (store_all req b))
          × (v.queue ≡ w.queue)
          × (joined v.sent ≡ [])
    unfolding Response.init scan
    next_piece e w req b z p at c got some_bytes =
        let more = Collects-more req b z c in
        let (sent, done, said) =
          handle_chat lim e.io p.memory (world_of w (waiting_conn req)) req Response.init b
            (parse_at (store_all req b) Response.init) p.works write_pos read_pos some_bytes got
            scanned
            (record { small = refl; incomplete = more.incomplete; open_still = more.open_still }) in
        (
          record (waiting (going_on (store_all req b) e.io) Response.init none
              (world_of w (waiting_conn req))) { sent = sent },
          on_event-waiting e w req _ p at done,
          ap waiting_conn stays,
          refl,
          said,
        )
      where
        sizes : data_len req + length b ≤ lim.data_buffer_size
        sizes = omega (
          arith,
          t.fits,
          ap (λ (s : Bytes). length s) c.whole,
          length-append req.text (b ++ z),
          length-append b z,
          length-append (mail_text (f ∷ fs) body) (codes "\r\n.\r"),
        )

        scanned :
            parse_commands lim.data_buffer_size e.io.stale b req Response.init
            ≡ ok (parse_at (store_all req b) Response.init)
        scanned =
            ap (λ (s : Bytes). scan lim.data_buffer_size e.io.stale s 0 req Response.init)
              (sym (append-nil b))
            ∙ scan-Quiet lim.data_buffer_size e.io.stale b [] req Response.init c.inside sizes
                (Quiet-take req.text b z c.quiet)

        stays : going_on (store_all req b) e.io ≡ store_all req b
        stays = simp (store_all-in_data req b, c.inside)

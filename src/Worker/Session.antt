-- ===== src/Worker/Session.antt =====
-- A client's mail, from its DATA command to the queue, whatever other clients do meanwhile, through
-- the main loop of a worker.
use mathlib.Core.Path.{subst}
use comfirm_dmarc_report_ser.Common.{
  ℕ, ◌<◌, ◌≡◌, refl, sym, ap, ◌∙◌, false, List, [], ◌∷◌, ◌++◌, append-nil, append_assoc, some, none,
  arith, length, length-append, get_elem?, get_elem?-set_self, Bytes, codes,
}
use comfirm_dmarc_report_ser.Common.Outcome.{ok}
use comfirm_dmarc_report_ser.Connection.{Connection, Limits, World}
use comfirm_dmarc_report_ser.Connection.Handle.Session.{IsMailText, HasRoom}
use comfirm_dmarc_report_ser.Connection.Handle.{handle}
use comfirm_dmarc_report_ser.Connection.Handle.Inv.{waiting}
use comfirm_dmarc_report_ser.Data.{Mail}
use comfirm_dmarc_report_ser.Queue.{Ref}
use comfirm_dmarc_report_ser.Request
use comfirm_dmarc_report_ser.Request.{Request}
use comfirm_dmarc_report_ser.Request.Commands.{end_of_data}
use comfirm_dmarc_report_ser.Request.Commands.Collect.{store_all}
use comfirm_dmarc_report_ser.Request.Headers.Print.{Field, mail_text}
use comfirm_dmarc_report_ser.Response
use comfirm_dmarc_report_ser.Worker.{
  Entry, known, Event, Worker, world_of, settle, wake, on_entry, on_event, run,
}
use comfirm_dmarc_report_ser.Worker.Among.{
  Schedule, last, own, other, Arrives, Arrives-cons, Arrives-other,
}
use comfirm_dmarc_report_ser.Worker.Chat.{handle_chat, going_on}
use comfirm_dmarc_report_ser.Worker.Early.{on_event-frame}
use comfirm_dmarc_report_ser.Worker.Pieces.{Collects, Collects-more, last_piece, next_piece}
use comfirm_dmarc_report_ser.Worker.Ready.{Ready, wake-Ready, in_data_req, data_verb-parsed}
use comfirm_dmarc_report_ser.Worker.Text.{
  replies, replies-snoc, waiting_conn, Plain, Pieces, before_last, Delivered,
}

-- An event on a connection that waits once the loop has woken it.
ready_event :
    {fd : ℕ} (lim : Limits) (e : Event) (w : Worker) (entry : Entry) (c : Connection) (v : World)
    → Plain fd e
    → get_elem? w.conns fd ≡ some entry
    → wake e entry ≡ ok c
    → handle lim e.io (world_of w c) ≡ ok v
    → on_event lim e w ≡ ok (settle w fd v)
unfolding on_event on_entry
ready_event lim e w entry c v p at woken h =
    simp p.here (simp (at, woken, h) (ap (λ (k : ℕ). ok (settle w k v)) p.here))

module _ (lim : Limits) (fd : ℕ) (write_pos : 0 < lim.write_buffer_size)
    (read_pos : 0 < lim.read_buffer_size) (f : Field) (fs : List Field) (body : Bytes)
    (t : IsMailText lim (f ∷ fs) body) (q : Ref) (room : HasRoom q) where
  Pieces-Arrives :
      (mine all : List Event) (w : Worker) (req : Request) (u : Bytes)
      → Schedule lim fd q mine w all
      → get_elem? w.conns fd ≡ some (known (waiting_conn req))
      → Collects lim fd write_pos read_pos f fs body t req u
      → Pieces fd mine (u ++ b'\n' ∷ [])
      → Arrives lim fd f fs body q (codes "250 Ok: queued as nada\r\n") all w
  unfolding run Arrives
  Pieces-Arrives _ _ _ req u (last e w has) at c (p, b, [], got, some_bytes, eq, more) =
      let (w', m, done, d) =
        last_piece lim fd write_pos read_pos f fs body t e w req q u p at c
          (got ∙ ap some (sym (eq ∙ append-nil b))) has room in
      (w', m, simp done, d)
  Pieces-Arrives _ _ _ req u (last e w has) at c (p, b, a ∷ rest, got, some_bytes, eq, more) = cc
  Pieces-Arrives _ _ _ req u (own e e' mine all w next) at c
        (p, b, [], got, some_bytes, eq, (p', b', rest', got', some', eq', more)) =
      absurd (omega (arith, ap (λ (s : Bytes). length s) eq', length-append b' rest'))
  Pieces-Arrives _ _ _ req u (own e e' mine all w next) at c
        (p, b, a ∷ rest, got, some_bytes, eq, more) =
      let (z, h, k) = before_last b u a b'\n' rest eq in
      let c' = subst (Collects lim fd write_pos read_pos f fs body t req) h c in
      let (v, done, conn, queue, sent) =
        next_piece lim fd write_pos read_pos f fs body t e w req b z p at c' got some_bytes in
      Arrives-cons lim fd f fs body q [] (codes "250 Ok: queued as nada\r\n") e all w
        (settle w fd v) done
        (replies-snoc fd w.handled v.sent v.hung_up
          ∙ ap (λ (s : Bytes). replies fd w.handled ++ s) sent)
        (Pieces-Arrives (e' ∷ mine) all (settle w fd v) (store_all req b) z
          (next (settle w fd v) done queue)
          (get_elem?-set_self w.conns fd (known v.conn) at
            ∙ ap (λ (x : Connection). some (known x)) conn)
          (Collects-more lim fd write_pos read_pos f fs body t req b z c')
          (subst (Pieces fd (e' ∷ mine)) k more))
  Pieces-Arrives _ _ _ req u (other e mine all w w1 ne done s) at c pieces =
      Arrives-other lim fd f fs body q (codes "250 Ok: queued as nada\r\n") e all w w1 done ne
        (Pieces-Arrives mine all w1 req u s (on_event-frame lim e w w1 fd done ne ∙ at) c pieces)

  -- A client sends DATA in one read and then, in as many reads as the network makes of it, the text
  -- of a mail and the closing line, to a connection that was never used, was closed, or answered
  -- its last command. Before and between these reads the loop handles any events of other
  -- descriptors, which may deliver mails too. Then the loop handles all the events, and that mail
  -- is queued behind those in the queue by then, the client was told to end its data and that the
  -- mail is queued, and nothing else, its descriptor is closed, and its connection is free. The mail
  -- is as in `IsMailText`, when the last read comes the queue is valid, free and has room, both
  -- buffers hold at least one byte, every `send` to the client works, it does not close, and
  -- `malloc` returns whole headers.
  pub session_delivers :
      (e : Event) (es all : List Event) (w : Worker) (entry : Entry)
      → Schedule lim fd q (e ∷ es) w all
      → get_elem? w.conns fd ≡ some entry
      → Ready entry
      → Plain fd e
      → e.io.received ≡ some (codes "DATA\r\n")
      → Pieces fd es (mail_text (f ∷ fs) body ++ end_of_data)
      → (w' : Worker) × (m : Mail) × (run lim all w ≡ ok w')
        × Delivered fd f fs body
            (codes "354 End data with <CR><LF>.<CR><LF>\r\n250 Ok: queued as nada\r\n")
            w
            w'
            q
            m
  unfolding Request.init Response.init Arrives
  session_delivers _ _ _ _ entry (last e w has) at ready p got pieces = absurd (
      omega (
        arith,
        ap (λ (s : Bytes). length s) pieces,
        length-append (mail_text (f ∷ fs) body) end_of_data,
      ))
  session_delivers _ _ _ _ entry (own e e' mine all w next) at ready p got pieces =
      let (m, full, arrays, woken) = wake-Ready e entry p ready in
      let (parse, scanned, stays, req_eq, said) =
        data_verb-parsed lim.data_buffer_size e.io.stale m in
      let (sent, done, told) =
        handle_chat lim e.io p.memory (world_of w (waiting_conn (Request.init m))) (Request.init m)
          Response.init (codes "DATA\r\n") parse p.works write_pos read_pos (omega arith) got
          scanned stays in
      let v : World =
        record (waiting (going_on parse.req e.io) Response.init none
          (world_of w (waiting_conn (Request.init m)))) { sent = sent } in
      let handled = ready_event lim e w entry (waiting_conn (Request.init m)) v p at woken done in
      Arrives-cons lim fd f fs body q (codes "354 End data with <CR><LF>.<CR><LF>\r\n")
        (codes "250 Ok: queued as nada\r\n") e all w (settle w fd v) handled
        (replies-snoc fd w.handled sent false
          ∙ ap (λ (s : Bytes). replies fd w.handled ++ s) (told ∙ said))
        (Pieces-Arrives (e' ∷ mine) all (settle w fd v) (in_data_req m)
          (mail_text (f ∷ fs) body ++ codes "\r\n.\r") (next (settle w fd v) handled refl)
          (get_elem?-set_self w.conns fd (known v.conn) at
            ∙ ap (λ (x : Request). some (known (waiting_conn x)))
                (ap (λ (x : Request). going_on x e.io) req_eq))
          (record {
            full = full;
            arrays = arrays;
            inside = refl;
            incomplete = refl;
            open_still = refl;
            whole = refl;
            quiet = t.quiet;
          })
          (subst (Pieces fd (e' ∷ mine))
            (sym (append_assoc (mail_text (f ∷ fs) body) (codes "\r\n.\r") (b'\n' ∷ []))) pieces))
  session_delivers e es _ _ entry (other o mine all w w1 ne done s) at ready p got pieces =
      Arrives-other lim fd f fs body q
        (codes "354 End data with <CR><LF>.<CR><LF>\r\n250 Ok: queued as nada\r\n") o all w w1 done
        ne
        (session_delivers e es all w1 entry s (on_event-frame lim o w w1 fd done ne ∙ at) ready p
          got pieces)

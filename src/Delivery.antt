-- ===== src/Delivery.antt =====
-- The whole way of a mail: from the client's connection in the loop of a worker, src/worker.c,
-- through the queue, to the round of the mail handler that reports it, src/mailhandler/mailhandler.c.
use comfirm_dmarc_report_ser.Common.{
  ℕ, ◌+◌, ◌<◌, ◌≡◌, true, false, List, [], ◌∷◌, ◌++◌, ◌∙◌, refl, Option, some, length, get_elem?,
  Bytes, codes,
}
use comfirm_dmarc_report_ser.Common.Outcome.{ok}
use comfirm_dmarc_report_ser.Connection.{Limits}
use comfirm_dmarc_report_ser.Connection.Handle.Session.{IsMailText, HasRoom}
use comfirm_dmarc_report_ser.Connection.Mails.Queued.{Holds}
use comfirm_dmarc_report_ser.Data.{Mail}
use comfirm_dmarc_report_ser.Mailhandler.Loop.{Handler, turns}
use comfirm_dmarc_report_ser.Mailhandler.Loop.Drain.{Reported, data_of, Holding}
use comfirm_dmarc_report_ser.Mailhandler.Loop.Next.{reports_next}
use comfirm_dmarc_report_ser.Mailhandler.Reports.{Services, report}
use comfirm_dmarc_report_ser.Queue.{Ref}
use comfirm_dmarc_report_ser.Queue.Inv.{pushed, pushed-IsValid}
use comfirm_dmarc_report_ser.Queue.Refine.{contents}
use comfirm_dmarc_report_ser.Request.Commands.{end_of_data}
use comfirm_dmarc_report_ser.Request.Headers.Print.{Field, mail_text}
use comfirm_dmarc_report_ser.Worker.{Entry, Event, Worker, run}
use comfirm_dmarc_report_ser.Worker.Among.{Schedule}
use comfirm_dmarc_report_ser.Worker.Ready.{Ready}
use comfirm_dmarc_report_ser.Worker.Session.{session_delivers}
use comfirm_dmarc_report_ser.Worker.Text.{Plain, Pieces, replies}

-- A client sends DATA in one read and a mail in as many reads as the network makes of it; before and
-- between them the worker handles any events of other clients, and when the last read comes, mails
-- whose reports come to an end wait in the queue. Then the worker handles all these events, and tells
-- the client that the mail is queued; and the mail handler, on the queue that the worker leaves,
-- takes those that waited in one round each, and in its next round takes a mail with the header lines
-- and the body that the client sent and hands its report to curl, after which the queue is empty.
-- The libraries make this report of every mail with these header lines and this body, none of the
-- mails that waited has data to post, and the handle of curl is there, as before the first
-- `post_data`. The mail is as in
-- `IsMailText`, the connection was never used, was closed, or answered its last command, the queue
-- is valid, free and has room when the last read comes, both buffers hold at least one byte, every
-- `send` to the client works, it does not close, and `malloc` returns whole headers.
pub end_to_end :
    (lim : Limits) (fd : ℕ) (lib : Services) (f : Field) (fs : List Field) (body : Bytes)
    (e : Event) (es all : List Event) (w : Worker) (entry : Entry) (q : Ref)
    (js : List (Option Bytes)) (h : Handler) (json : Bytes)
    → 0 < lim.write_buffer_size
    → 0 < lim.read_buffer_size
    → IsMailText lim (f ∷ fs) body
    → Schedule lim fd q (e ∷ es) w all
    → get_elem? w.conns fd ≡ some entry
    → Ready entry
    → Plain fd e
    → e.io.received ≡ some (codes "DATA\r\n")
    → Pieces fd es (mail_text (f ∷ fs) body ++ end_of_data)
    → HasRoom q
    → Reported lib (contents q) js
    → data_of js ≡ []
    → h.curl ≡ true
    → ((m : Mail) → Holds m (f ∷ fs) body → report lib m ≡ ok (some json))
    → (w' : Worker) × (q' : Ref) × (m : Mail) × (q'' : Ref) × (run lim all w ≡ ok w')
      × (replies fd w'.handled
          ≡ replies fd w.handled
            ++ codes "354 End data with <CR><LF>.<CR><LF>\r\n250 Ok: queued as nada\r\n")
      × (w'.queue ≡ some q')
      × Holds m (f ∷ fs) body
      × (turns lib (length (contents q) + 1) (record h { queue = q' })
          ≡ ok (record h { queue = q''; posted = h.posted ++ json ∷ []; curl = false }))
      × (contents q'' ≡ [])
end_to_end lim fd lib f fs body e es all w entry q js h json write_pos read_pos t s at ready plain
      got pieces r reported quiet there told =
    let (w', m, done, d) =
      session_delivers lim fd write_pos read_pos f fs body t q r e es all w entry s at ready plain
        got pieces in
    let hold : Holding (pushed q m) (contents q ++ m ∷ []) = record {
      valid = pushed-IsValid m r.valid r.room;
      free = r.free;
      mails = d.behind;
    } in
    let (q'', empty, turned) =
      reports_next lib (contents q) js m (record h { queue = pushed q m }) hold reported quiet
        there in
    (
      w',
      pushed q m,
      m,
      q'',
      done,
      d.replied,
      d.queued,
      d.holds,
      turned ∙ simp (told m d.holds) refl,
      empty.mails,
    )

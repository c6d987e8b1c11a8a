-- ===== src/Tests/Server.antt =====
-- The processes of the server at concrete inputs.
use comfirm_dmarc_report_ser.Common.{
  ◌≡◌, refl, true, false, [], ◌∷◌, ◌++◌, Option, none, some, arith, set, Bytes, codes, inl, inr,
  List, ◌∙◌, sym, ap, ℕ, take,
}
use comfirm_dmarc_report_ser.Common.Outcome.{ok}
use comfirm_dmarc_report_ser.Connection.{Connection}
use comfirm_dmarc_report_ser.Data.{Hdr, Mail}
use comfirm_dmarc_report_ser.Base64.{base64_decode}
use comfirm_dmarc_report_ser.Base64.Encode.{encode}
use comfirm_dmarc_report_ser.Base64.RoundTrip.{base64_decode-encode}
use comfirm_dmarc_report_ser.Master.{worker_map, Accept}
use comfirm_dmarc_report_ser.Master.Serve.{Loop, accept_all, AllGreeted, accept_all_welcomes}
use comfirm_dmarc_report_ser.Worker.{untouched, known, Event, Worker, setup, on_event, run}
use comfirm_dmarc_report_ser.Worker.Among.{Schedule, last, own, other}
use comfirm_dmarc_report_ser.Worker.Early.{fresh}
use comfirm_dmarc_report_ser.Worker.Inv.{AllFine, AllFine-setup}
use comfirm_dmarc_report_ser.Worker.Keeps.{on_event-keeps}
use comfirm_dmarc_report_ser.Worker.Session.{session_delivers}
use comfirm_dmarc_report_ser.Worker.Text.{Plain, Pieces, replies, Delivered}
use comfirm_dmarc_report_ser.Delivery.{end_to_end}
use comfirm_dmarc_report_ser.Queue.{Ref}
use comfirm_dmarc_report_ser.Request.Commands.{end_of_data}
use comfirm_dmarc_report_ser.Request.Headers.Print.{mail_text}
use comfirm_dmarc_report_ser.Common.Int.{pos}
use comfirm_dmarc_report_ser.Connection.Handle.Session.{IsMailText, HasRoom}
use comfirm_dmarc_report_ser.Connection.Mails.Queued.{Holds}
use comfirm_dmarc_report_ser.Mailhandler.Loop.{turns}
use comfirm_dmarc_report_ser.Request.Headers.Print.{Field, IsField}
use comfirm_dmarc_report_ser.Mailhandler.Reports.{report, headers_of, content_encoding}
use comfirm_dmarc_report_ser.Request.Headers.Parse.{read, read_all}
use comfirm_dmarc_report_ser.Queue.Refine.{contents}
use comfirm_dmarc_report_ser.Tests.Reports.{services, plain_mail, plain_mail-report, report-base64}
use comfirm_dmarc_report_ser.Tests.Data.{
  mail_b, queue, queue-IsValid, memory, memory-AllHdrs, from_field, from_field-IsField, limits, io,
}

-- `Zm9v`, a line end, and `YmE=`.
base64_decode-encode_example :
    base64_decode (encode (13 ∷ 10 ∷ []) (codes "fooba") ++ 0 ∷ 7 ∷ []) 8 ≡ ok (codes "fooba")
base64_decode-encode_example =
    base64_decode-encode (13 ∷ 10 ∷ []) (7 ∷ []) (codes "fooba") (inl refl, (inr refl, tt))
      (omega arith) (omega arith)

abbrev accepted : Accept
accepted = record { fd = some 7; memory = memory; io = io none; add_works = true }

accept_all_welcomes_example :
    (l : Loop) × (accept_all limits
        (0 ∷ 1 ∷ 2 ∷ 0 ∷ 1 ∷ 2 ∷ 0 ∷ 1 ∷ [])
        (λ _. some queue)
        (record accepted { fd = none }
          ∷ accepted
          ∷ record accepted { fd = some 6; add_works = false }
          ∷ [])
      ≡ ok l)
    × AllGreeted limits 3
        (record accepted { fd = none }
          ∷ accepted
          ∷ record accepted { fd = some 6; add_works = false }
          ∷ [])
        l
unfolding worker_map
accept_all_welcomes_example =
    accept_all_welcomes limits 3 4 (0 ∷ 1 ∷ 2 ∷ 0 ∷ 1 ∷ 2 ∷ 0 ∷ 1 ∷ []) (λ _. some queue)
      (record accepted { fd = none }
        ∷ accepted
        ∷ record accepted { fd = some 6; add_works = false }
        ∷ [])
      refl (omega arith) (omega arith) (tt, (omega arith, (omega arith, tt)))

-- An event on the descriptor 5.
abbrev pub event : Option Bytes → Event
event received = record { fd = 5; rdhup = false; memory = memory; io = io received }

abbrev pub worker : Worker
worker = fresh 4 (some queue)

on_event-keeps_example :
    (w' : Worker) × (c : Connection) × (on_event limits (event none) worker ≡ ok w')
    × AllFine limits w'.conns
    × (w'.conns ≡ set worker.conns 5 (known c))
    × (w'.queue ≡ some queue)
unfolding setup
on_event-keeps_example =
    on_event-keeps limits (omega arith) (omega arith) (event none) worker (AllFine-setup limits 8)
      (omega arith) (λ _. refl) refl refl (omega arith)
      (λ entry c req resp b p at woken has_req has_resp got e. cc)

pub plain : (received : Option Bytes) → Plain 5 (event received)
plain received = record {
  here = refl;
  still_open = refl;
  start_memory = refl;
  start_arrays = memory-AllHdrs;
  memory = refl;
  works = λ _. refl;
}

-- The mail of a client, in base64.
abbrev encoding_field : Field
encoding_field = record { key = codes "Content-Transfer-Encoding"; value = codes "base64" }

encoding_field-IsField : IsField encoding_field
encoding_field-IsField = record {
  key_bytes = ground arith;
  key_fits = omega arith;
  value_bytes = ground arith;
  value_fits = omega arith;
}

pub client_mail-IsMailText : IsMailText limits (from_field ∷ encoding_field ∷ []) (codes "hi")
client_mail-IsMailText = record {
  fields = (from_field-IsField, (encoding_field-IsField, tt));
  few = omega arith;
  no_fold = ground arith;
  clean = ground arith;
  short = omega arith;
  fits = omega arith;
  quiet = ground arith;
}

pub pieces :
    Pieces 5
      (event (some (codes "F"))
        ∷ event (some (codes "rom: a@b.c\r\nContent-Transfer-Encoding: base64\r\n\r\nhi\r\n.\r\n"))
        ∷ [])
      (mail_text (from_field ∷ encoding_field ∷ []) (codes "hi") ++ end_of_data)
pieces = (
  plain _,
  codes "F",
  codes "rom: a@b.c\r\nContent-Transfer-Encoding: base64\r\n\r\nhi\r\n.\r\n",
  refl,
  omega arith,
  refl,
  (
    plain _,
    codes "rom: a@b.c\r\nContent-Transfer-Encoding: base64\r\n\r\nhi\r\n.\r\n",
    [],
    refl,
    omega arith,
    refl,
    refl,
  ),
)

-- The client of the descriptor 3 connects and sends nothing, while the client of the descriptor 5
-- sends its mail.
abbrev pub mail_events : List Event
mail_events =
    event (some (codes "DATA\r\n"))
    ∷ event (some (codes "F"))
    ∷ event (some (codes "rom: a@b.c\r\nContent-Transfer-Encoding: base64\r\n\r\nhi\r\n.\r\n"))
    ∷ []

abbrev pub other_event : Event
other_event = record (event none) { fd = 3 }

pub mail_schedule :
    (q : Ref) → Schedule limits 5 q mail_events (fresh 4 (some q)) (other_event ∷ mail_events)
unfolding setup
mail_schedule q =
    let (w, c, done, good, table, same) =
      on_event-keeps limits (omega arith) (omega arith) other_event (fresh 4 (some q))
        (AllFine-setup limits 8) (omega arith) (λ _. refl) refl refl (omega arith)
        (λ entry c req resp b p at woken has_req has_resp got e. cc) in
    other other_event mail_events mail_events (fresh 4 (some q)) w (omega arith) done (
      own _ _ _ _ w
        (λ w1 done1 same1. own _ _ _ _ w1 (λ w2 done2 same2. last _ w2 (same2 ∙ same1 ∙ same))))

session_delivers_example :
    (w' : Worker) × (m : Mail) × (run limits (other_event ∷ mail_events) worker ≡ ok w')
    × Delivered 5 from_field
        (encoding_field ∷ [])
        (codes "hi")
        (codes "354 End data with <CR><LF>.<CR><LF>\r\n250 Ok: queued as nada\r\n")
        worker
        w'
        queue
        m
unfolding setup
session_delivers_example =
    session_delivers limits 5 (omega arith) (omega arith) from_field (encoding_field ∷ [])
      (codes "hi") client_mail-IsMailText queue
      (record { valid = queue-IsValid; free = omega arith; room = omega arith })
      (event (some (codes "DATA\r\n")))
      (event (some (codes "F"))
        ∷ event (some (codes "rom: a@b.c\r\nContent-Transfer-Encoding: base64\r\n\r\nhi\r\n.\r\n"))
        ∷ [])
      (other_event ∷ mail_events) worker untouched (mail_schedule queue) refl tt
      (plain (some (codes "DATA\r\n"))) refl pieces

-- A queue in which a mail waits that is not in base64.
abbrev reported : Ref
reported = record {
  shared = record {
    write_offset = 1;
    read_offset = 0;
    message_count = 1;
    message_max_count = 2;
    memory_size = pos 62112;
  };
  slots = plain_mail ∷ mail_b ∷ [];
  mapped = 65536;
  sem = 1;
}

reported-HasRoom : HasRoom reported
reported-HasRoom = record {
  valid = record {
    slot_count = refl;
    capacity_pos = omega arith;
    capacity_small = omega arith;
    read_in = omega arith;
    count_in = omega arith;
    write_at = refl;
    all_mapped = omega arith;
  };
  free = omega arith;
  room = omega arith;
}

-- The report of that mail, whatever stands behind its strings.
client-encoding :
    (hs : List Hdr)
    → read_all 2 hs ≡ from_field ∷ encoding_field ∷ []
    → content_encoding (take 2 hs) ≡ some (codes "base64")
client-encoding [] e = cc e
client-encoding (h ∷ []) e = cc e
client-encoding (h ∷ g ∷ hs) e =
    let first : read h ≡ from_field = cc e in
    let second : read g ≡ encoding_field = cc e in
    rw (ap (λ (x : Field). x.key) first)
      (rw (ap (λ (x : Field). x.key) second) (rw (ap (λ (x : Field). x.value) second) refl))

client-report :
    (m : Mail)
    → Holds m (from_field ∷ encoding_field ∷ []) (codes "hi")
    → report services m ≡ ok (some (codes "\"records\": []"))
unfolding headers_of
client-report m h =
    report-base64 m (take 2 m.headers) (rw h.count refl)
      (client-encoding m.headers (ap (λ (n : ℕ). read_all n m.headers) (sym h.count) ∙ h.fields))
      h.text

end_to_end_example :
    (w' : Worker) × (q' : Ref) × (m : Mail) × (q'' : Ref) × (run limits
        (other_event ∷ mail_events)
        (fresh 4 (some reported))
      ≡ ok w')
    × (replies 5 w'.handled
        ≡ codes "354 End data with <CR><LF>.<CR><LF>\r\n250 Ok: queued as nada\r\n")
    × (w'.queue ≡ some q')
    × Holds m (from_field ∷ encoding_field ∷ []) (codes "hi")
    × (turns services 2 (record { queue = q'; posted = []; waits = 0; curl = true })
        ≡ ok (record {
          queue = q'';
          posted = codes "\"records\": []" ∷ [];
          waits = 0;
          curl = false;
        }))
    × (contents q'' ≡ [])
unfolding setup
end_to_end_example =
    end_to_end limits 5 services from_field (encoding_field ∷ []) (codes "hi")
      (event (some (codes "DATA\r\n")))
      (event (some (codes "F"))
        ∷ event (some (codes "rom: a@b.c\r\nContent-Transfer-Encoding: base64\r\n\r\nhi\r\n.\r\n"))
        ∷ [])
      (other_event ∷ mail_events) (fresh 4 (some reported)) untouched reported (none ∷ [])
      (record { queue = reported; posted = []; waits = 0; curl = true }) (codes "\"records\": []")
      (omega arith) (omega arith) client_mail-IsMailText (mail_schedule reported) refl tt
      (plain (some (codes "DATA\r\n"))) refl pieces reported-HasRoom (plain_mail-report, tt) refl
      refl client-report

-- ===== src/Tests/Connection.antt =====
-- Events on a connection at concrete inputs.
use comfirm_dmarc_report_ser.Common.{
  length, ◌<◌, ◌⊎◌, replicate, ◌≡◌, refl, sym, ap, ◌∙◌, Bool, true, false, List, [], ◌∷◌, ◌++◌,
  Option, none, some, arith, Bytes, codes,
}
use comfirm_dmarc_report_ser.Common.Outcome.{Outcome, ok, fault, out_of_bounds}
use comfirm_dmarc_report_ser.Data.{Mail}
use comfirm_dmarc_report_ser.Connection.{Chunk, World, start}
use comfirm_dmarc_report_ser.Connection.Send.{send_all, send_all_ends, joined, AllWithin}
use comfirm_dmarc_report_ser.Connection.Mails.Queued.{Holds}
use comfirm_dmarc_report_ser.Connection.Handle.{handle}
use comfirm_dmarc_report_ser.Connection.Handle.Inv.{waiting, gone, After}
use comfirm_dmarc_report_ser.Connection.Handle.Reading.{reading-Settled}
use comfirm_dmarc_report_ser.Connection.Handle.Session.{handle_mail}
use comfirm_dmarc_report_ser.Queue.Inv.{pushed}
use comfirm_dmarc_report_ser.Queue.Refine.{contents}
use comfirm_dmarc_report_ser.Request.Commands.{Parse, end_of_data, parse_commands, scan, store}
use comfirm_dmarc_report_ser.Request.Headers.Print.{mail_text}
use comfirm_dmarc_report_ser.Tests.Data.{
  mail_a, queue, queue-IsValid, memory, memory-AllHdrs, from_field, from_field-IsField, request,
  response, limits, io,
}

send_all_ends_example :
    (r : List Chunk × Bool) × (send_all 2 (λ _. false) (codes "hello") ≡ some r) × AllWithin 2 r.0
send_all_ends_example = send_all_ends 2 (λ _. false) (codes "hello") (omega arith)

abbrev world : World
world = record { conn = start memory; queue = some queue; sent = []; hung_up = false }

abbrev sent_mail : Bytes
sent_mail = mail_text (from_field ∷ []) (codes "hi")

handle_mail_example :
    (w' : World) × (m : Mail) × (handle limits
        (io (some (sent_mail ++ end_of_data)))
        (waiting request response none world)
      ≡ ok w')
    × (w'.queue ≡ some (pushed queue m))
    × (contents (pushed queue m) ≡ mail_a ∷ m ∷ [])
    × Holds m (from_field ∷ []) (codes "hi")
    × (joined w'.sent ≡ codes "250 Ok: queued as nada\r\n")
    × (w'.conn ≡ (gone world).conn)
    × (w'.hung_up ≡ true)
handle_mail_example =
    handle_mail limits (io (some (sent_mail ++ end_of_data))) refl world request response queue
      from_field [] (codes "hi") (λ _. refl) (omega arith) (omega arith) refl memory-AllHdrs refl
      refl
      (record {
        fields = (from_field-IsField, tt);
        few = omega arith;
        no_fold = ground arith;
        clean = ground arith;
        short = omega arith;
        fits = omega arith;
        quiet = ground arith;
      })
      refl refl (record { valid = queue-IsValid; free = omega arith; room = omega arith })

abbrev processes : Outcome Parse → Bool
processes (ok p) = p.req.process
processes (fault _) = false

abc-incomplete :
    (b : Bytes) (p : Parse)
    → some (codes "abc") ≡ some b
    → parse_commands 100 (replicate 9 0) b request response ≡ ok p
    → p.req.process ≡ false
unfolding scan store
abc-incomplete b p same e =
    sym (ap processes e)
    ∙ ap
        (λ (o : Option Bytes).
          processes (
            parse_commands 100 (replicate 9 0) (elim o [ none ↦ [] | some t ↦ t ]) request
              response))
        (sym same)

reading-Settled_example :
    ((w' : World) × (handle limits (io (some (codes "abc"))) (waiting request response none world)
        ≡ ok w')
      × After limits (io (some (codes "abc"))) refl (some queue) w')
    ⊎ ((handle limits (io (some (codes "abc"))) (waiting request response none world)
          ≡ fault out_of_bounds)
        × (length (io (some (codes "abc"))).stale < 9))
reading-Settled_example =
    reading-Settled limits (io (some (codes "abc"))) refl request response world (omega arith)
      (omega arith) (record { headers = refl; bounded = omega arith }) abc-incomplete

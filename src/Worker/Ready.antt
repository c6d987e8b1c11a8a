-- ===== src/Worker/Ready.antt =====
-- The event with the DATA command.
use comfirm_dmarc_report_ser.Common.{ℕ, ◌≡◌, refl, true, ◌⊎◌, inl, inr, List, length, Bytes, codes}
use comfirm_dmarc_report_ser.Common.Outcome.{ok}
use comfirm_dmarc_report_ser.Data.{Hdr, header_max_len}
use comfirm_dmarc_report_ser.Connection.{start, inactive}
use comfirm_dmarc_report_ser.Request.{Request, data_len}
use comfirm_dmarc_report_ser.Request.Commands.{parse_commands, scan}
use comfirm_dmarc_report_ser.Request.Headers.Print.{AllHdrs}
use comfirm_dmarc_report_ser.Response
use comfirm_dmarc_report_ser.Response.{Response}
use comfirm_dmarc_report_ser.Worker.{Entry, known, Event, wake}
use comfirm_dmarc_report_ser.Worker.Chat.{Stays}
use comfirm_dmarc_report_ser.Worker.{untouched}
use comfirm_dmarc_report_ser.Request
use comfirm_dmarc_report_ser.Request.Commands.{Parse, obey, verb, tests, strncmp_eq}
use comfirm_dmarc_report_ser.Worker.Text.{waiting_conn, Plain}

-- Where the next event finds or makes an empty request: a connection that was never used, was closed,
-- or answered its last command.
abbrev pub Ready : Entry → Type 0
Ready untouched = Unit
Ready (known c) =
    (c.status ≡ inactive)
    ⊎ ((m : List Hdr) × (length m ≡ header_max_len)
        × AllHdrs m
        × (c ≡ waiting_conn (Request.init m)))

pub wake-Ready :
    {fd : ℕ} (e : Event) (entry : Entry)
    → Plain fd e
    → Ready entry
    → (m : List Hdr) × (length m ≡ header_max_len)
      × AllHdrs m
      × (wake e entry ≡ ok (waiting_conn (Request.init m)))
unfolding wake start
wake-Ready e untouched p r = (e.memory, p.start_memory, p.start_arrays, simp p.still_open)
wake-Ready e (known c) p (inl h) =
    (e.memory, p.start_memory, p.start_arrays, simp (p.still_open, h))
wake-Ready e (known c) p (inr (m, full, arrays, h)) = (m, full, arrays, simp (p.still_open, h))

-- A request that waits for the data.
abbrev pub in_data_req : List Hdr → Request
in_data_req m = record (Request.init m) { in_data = true }

pub data_verb-parsed :
    (limit : ℕ) (stale : Bytes) (m : List Hdr)
    → (p : Parse) × (parse_commands limit stale (codes "DATA\r\n") (Request.init m) Response.init
        ≡ ok p)
      × Stays p
      × (p.req ≡ in_data_req m)
      × (p.resp.text ≡ codes "354 End data with <CR><LF>.<CR><LF>\r\n")
unfolding scan obey verb tests strncmp_eq Request.init Response.init Response.append Response.grow
data_verb-parsed limit stale m =
    (_, refl, record { small = refl; incomplete = refl; open_still = refl }, refl, refl)

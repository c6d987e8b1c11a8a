-- ===== src/Tests/Reports.antt =====
-- The report of a mail at a concrete input.
use comfirm_dmarc_report_ser.Common.{
  ◌≤◌, ◌≡◌, refl, arith, true, false, [], ◌∷◌, ◌++◌, none, some, codes, List, c_string, Option,
  Bytes, str_eq, if◌then◌else◌, ap, ◌∙◌,
}
use comfirm_dmarc_report_ser.Common.Outcome.{Outcome, ok, fault, null_deref, use_after_free, ◌>>=◌}
use comfirm_dmarc_report_ser.Data.{Hdr, Mail}
use comfirm_dmarc_report_ser.Mailhandler.Json.{
  element, end, parse_xml, tops, appends, records_to_json, records,
}
use comfirm_dmarc_report_ser.Mailhandler.Reports.{
  Services, report, validate_dkim, headers_of, dns_gettxt, check_record, decode_content,
  open_content, base64_decode, convert, kept, content_encoding,
}
use comfirm_dmarc_report_ser.Mailhandler.Loop.{Handler, turns}
use comfirm_dmarc_report_ser.Mailhandler.Loop.Drain.{Holding}
use comfirm_dmarc_report_ser.Mailhandler.Start.{start, start_drains, start_overdraws}
use comfirm_dmarc_report_ser.Queue.Open.{Host}
use comfirm_dmarc_report_ser.Queue.Open.Fresh.{Works}
use comfirm_dmarc_report_ser.Queue.Open.Reopen.{IsQueueFile}
use comfirm_dmarc_report_ser.Queue.Inv.{IsValid}
use comfirm_dmarc_report_ser.Tests.Queue.{host, queue_file}
use comfirm_dmarc_report_ser.Queue.{Ref}
use comfirm_dmarc_report_ser.Common.Int.{pos}
use comfirm_dmarc_report_ser.Mailhandler.Reports.Signed.{IsSigned, posted-IsSigned}
use comfirm_dmarc_report_ser.Mailhandler.Text.{base64_wrap, wrap}
use comfirm_dmarc_report_ser.Mailhandler.Zip.{print, unzip, extract}
use comfirm_dmarc_report_ser.Mailhandler.StringBuffer.{init, append, grow}

-- Libraries that find every signature right, and an archive with an empty document in every body.
abbrev pub services : Services
services = record {
  dkim_get_header = λ _. some (record { s = codes "s"; d = codes "d.org" });
  dkim_parse_dns = λ _. record { k = codes "rsa"; p = codes "key" };
  dkim_validate = λ _ _ _ _. 1;
  resolve = λ _. some (record { class_in = true; type_txt = true; rdata = codes "v=DKIM1" });
  bio_read = λ _.
      print
        (record {
          version = (20, 0);
          flags = (0, 0);
          time = (0, 0);
          date = (0, 0);
          crc = (0, 0, 0, 0);
          name = codes "r";
          extra = [];
          data_bytes = 1 ∷ [];
          full_size = 1;
        })
        [];
  inflate = λ _ _. some (codes "<a/>");
  stale = 0;
  content = λ _. [];
  read_memory = λ _. some (some (element (codes "a") end));
}

abbrev pub encoded : Mail
encoded = record {
  headers =
      record { key = codes "Content-Transfer-Encoding" ++ 0 ∷ []; value = codes "base64" ++ 0 ∷ [] }
      ∷ [];
  header_count = 1;
  body = 65 ∷ 0 ∷ [];
}

pub encoded-report : report services encoded ≡ ok (some (codes "\"records\": []"))
unfolding report validate_dkim headers_of dns_gettxt check_record decode_content open_content unzip
    base64_decode convert parse_xml tops appends init records_to_json append records grow extract
    kept base64_wrap wrap
encoded-report = refl

posted-IsSigned_example : (1 ≤ 20) × IsSigned services encoded.headers encoded.body
posted-IsSigned_example = posted-IsSigned services encoded (codes "\"records\": []") encoded-report

-- Any mail in base64 has a report.
signed : (m : Mail) (hs : List Hdr) → headers_of m ≡ ok hs → validate_dkim services m ≡ ok 1
unfolding validate_dkim dns_gettxt check_record kept base64_wrap wrap
signed m hs e = simp e refl

decoded :
    (m : Mail) (hs : List Hdr)
    → headers_of m ≡ ok hs
    → content_encoding hs ≡ some (codes "base64")
    → decode_content services m ≡ ok (some (base64_decode services (c_string m.body)))
unfolding decode_content
decoded m hs e enc = ap after e ∙ ap found enc
  where
    found : Option Bytes → Outcome (Option Bytes)
    found enc = elim enc [
      | none ↦ fault null_deref
      | some e ↦
          if str_eq e (codes "base64")
          then ok (some (base64_decode services (c_string m.body)))
          else ok none
    ]

    after : Outcome (List Hdr) → Outcome (Option Bytes)
    after o = o >>= λ hs. found (content_encoding hs)

opened_hi :
    open_content services (some (base64_decode services (codes "hi")))
    ≡ ok (some (codes "\"records\": []"))
unfolding open_content unzip base64_decode convert parse_xml tops appends init records_to_json
    append records grow extract base64_wrap wrap
opened_hi = refl

pub report-base64 :
    (m : Mail) (hs : List Hdr)
    → headers_of m ≡ ok hs
    → content_encoding hs ≡ some (codes "base64")
    → c_string m.body ≡ codes "hi"
    → report services m ≡ ok (some (codes "\"records\": []"))
unfolding report
report-base64 m hs e enc body = simp (signed m hs e, decoded m hs e enc, body) opened_hi

-- A queue of two such mails.
abbrev two_reports : Ref
two_reports = record {
  shared = record {
    write_offset = 0;
    read_offset = 0;
    message_count = 2;
    message_max_count = 2;
    memory_size = pos 62112;
  };
  slots = encoded ∷ encoded ∷ [];
  mapped = 65536;
  sem = 1;
}

two_reports-Holding : Holding two_reports (encoded ∷ encoded ∷ [])
two_reports-Holding = record {
  valid = record {
    slot_count = refl;
    capacity_pos = omega arith;
    capacity_small = omega arith;
    read_in = omega arith;
    count_in = omega arith;
    write_at = refl;
    all_mapped = omega arith;
  };
  free = omega arith;
  mails = refl;
}

-- The file of that queue, and the command line of its mail handler.
abbrev report_file : Host
report_file = record (host queue_file) {
  file_shared = two_reports.shared;
  file_slots = two_reports.slots;
}

report_file-Works : Works report_file
report_file-Works = record {
  opens = refl;
  seeks = λ _. refl;
  no_negative_seek = λ _. refl;
  writes = refl;
  maps = refl;
  has_semaphore = refl;
  page_pos = omega arith;
}

report_file-IsQueueFile : IsQueueFile report_file 2
report_file-IsQueueFile = record {
  there = refl;
  plain = refl;
  size = refl;
  small = omega arith;
  slot_count = refl;
  capacity = refl;
}

start_overdraws_example :
    (h : Handler) × (start (λ _. pos 2) (λ _. report_file) true (codes "/tmp/q-0") (codes "2")
      ≡ some h)
    × (turns services 2 h ≡ fault use_after_free)
start_overdraws_example =
    start_overdraws (λ _. pos 2) (λ _. report_file) (codes "/tmp/q-0") (codes "2") 2 two_reports
      refl report_file-Works report_file-IsQueueFile two_reports-Holding.valid refl refl
      (omega arith) services (some (codes "\"records\": []") ∷ some (codes "\"records\": []") ∷ [])
      0 (encoded-report, (encoded-report, tt)) (omega arith)

-- A mail whose encoding is another one.
abbrev pub plain_mail : Mail
plain_mail = record encoded {
  headers =
      record { key = codes "Content-Transfer-Encoding" ++ 0 ∷ []; value = codes "7bit" ++ 0 ∷ [] }
      ∷ [];
}

pub plain_mail-report : report services plain_mail ≡ ok none
unfolding report validate_dkim headers_of dns_gettxt check_record decode_content open_content kept
    base64_wrap wrap
plain_mail-report = refl

-- A queue with such a mail and one that has a report, and its file.
abbrev one_report : Ref
one_report = record two_reports { slots = plain_mail ∷ encoded ∷ [] }

one_report-IsValid : IsValid one_report
one_report-IsValid = record {
  slot_count = refl;
  capacity_pos = omega arith;
  capacity_small = omega arith;
  read_in = omega arith;
  count_in = omega arith;
  write_at = refl;
  all_mapped = omega arith;
}

abbrev one_report_file : Host
one_report_file = record report_file { file_slots = one_report.slots }

one_report_file-Works : Works one_report_file
one_report_file-Works = record {
  opens = refl;
  seeks = λ _. refl;
  no_negative_seek = λ _. refl;
  writes = refl;
  maps = refl;
  has_semaphore = refl;
  page_pos = omega arith;
}

one_report_file-IsQueueFile : IsQueueFile one_report_file 2
one_report_file-IsQueueFile = record {
  there = refl;
  plain = refl;
  size = refl;
  small = omega arith;
  slot_count = refl;
  capacity = refl;
}

start_drains_example :
    (h : Handler) × (q : Ref) × (start
        (λ _. pos 2)
        (λ _. one_report_file)
        true
        (codes "/tmp/q-0")
        (codes "2")
      ≡ some h)
    × (turns services 5 h
        ≡ ok (record { queue = q; posted = codes "\"records\": []" ∷ []; waits = 3; curl = false }))
    × Holding q []
start_drains_example =
    start_drains (λ _. pos 2) (λ _. one_report_file) (codes "/tmp/q-0") (codes "2") 2 one_report
      refl one_report_file-Works one_report_file-IsQueueFile one_report-IsValid refl refl
      (omega arith) services (none ∷ some (codes "\"records\": []") ∷ []) 3
      (plain_mail-report, (encoded-report, tt)) (omega arith)

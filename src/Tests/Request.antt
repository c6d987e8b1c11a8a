-- ===== src/Tests/Request.antt =====
-- The request parsers at concrete inputs.
use comfirm_dmarc_report_ser.Common.{
  ◌<◌, ◌⊎◌, length, ℕ, zero, suc, ◌≤◌, ◌≡◌, refl, List, [], ◌∷◌, ◌++◌, some, arith, replicate,
  length, codes,
}
use comfirm_dmarc_report_ser.Common.Outcome.{ok, fault, out_of_bounds}
use comfirm_dmarc_report_ser.Data.{header_max_len}
use comfirm_dmarc_report_ser.Request.{Request, data_len}
use comfirm_dmarc_report_ser.Request.Commands.{Parse, parse_commands}
use comfirm_dmarc_report_ser.Request.Commands.Safe.{parse_commands_safe}
use comfirm_dmarc_report_ser.Request.Commands.Collect.{split_reads}
use comfirm_dmarc_report_ser.Request.Headers.{parse_data}
use comfirm_dmarc_report_ser.Request.Headers.Print.{Field, mail_text, IsField, AllFields}
use comfirm_dmarc_report_ser.Request.Headers.Parse.{read_all, parse_data-mail_text}
use comfirm_dmarc_report_ser.Request.Headers.Safe.{parse_data_safe}
use comfirm_dmarc_report_ser.Request.Headers.Overflow.{parse_data_overflows}
use comfirm_dmarc_report_ser.Tests.Data.{
  memory-AllHdrs, from_field, from_field-IsField, request, response,
}

parse_commands_safe_example :
    ((p : Parse) × (parse_commands 10 (replicate 9 0) (codes "From: a@b.c\r\n") request response
        ≡ ok p)
      × (data_len p.req ≤ 10)
      × (p.req.headers ≡ request.headers))
    ⊎ ((parse_commands 10 (replicate 9 0) (codes "From: a@b.c\r\n") request response
          ≡ fault out_of_bounds)
        × (length {A = ℕ} (replicate 9 0) < 9))
parse_commands_safe_example =
    parse_commands_safe 10 (replicate 9 0) (codes "From: a@b.c\r\n") request response (omega arith)

split_reads_example :
    (first : Parse) × (parse_commands 100 [] (codes "a\r\n.") request response ≡ ok first)
    × (first.req.text ≡ codes "a\r\n.")
    × (parse_commands 100 [] (codes "a\r\n." ++ codes "\r\n") request response
        ≡ parse_commands 100 [] (codes "\r\n") first.req first.resp)
split_reads_example =
    split_reads 100 [] [] (codes "a\r\n.") (codes "\r\n") request response refl (omega arith)
      (refl, (refl, (refl, (refl, tt))))

abbrev mail_request : Request
mail_request = record request { text = mail_text (from_field ∷ []) (codes "hi") }

parse_data-mail_text_example :
    (req' : Request) × (parse_data [] mail_request ≡ ok req')
    × (req'.header_count ≡ 1)
    × (read_all req'.header_count req'.headers ≡ from_field ∷ [])
    × (req'.body ≡ some (codes "hi"))
parse_data-mail_text_example =
    parse_data-mail_text [] from_field [] 104 (105 ∷ []) mail_request (from_field-IsField, tt)
      (omega arith) refl memory-AllHdrs (ground arith) refl

parse_data_safe_example :
    (req' : Request) × (parse_data [] mail_request ≡ ok req')
    × (length req'.headers ≡ header_max_len)
    × (req'.header_count ≤ 2)
parse_data_safe_example = parse_data_safe [] mail_request refl (omega arith)

abbrev many_fields : List Field
many_fields = replicate 20 from_field

abbrev long_request : Request
long_request = record request { text = mail_text (from_field ∷ many_fields) [] }

replicate-AllFields : (n : ℕ) (f : Field) → IsField f → AllFields (replicate n f)
replicate-AllFields zero f v = tt
replicate-AllFields (suc n) f v = (v, replicate-AllFields n f v)

parse_data_overflows_example : parse_data [] long_request ≡ fault out_of_bounds
parse_data_overflows_example =
    parse_data_overflows [] [] from_field many_fields long_request
      (replicate-AllFields 21 from_field from_field-IsField) (omega arith) refl refl

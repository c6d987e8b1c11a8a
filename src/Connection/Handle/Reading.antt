-- ===== src/Connection/Handle/Reading.antt =====
-- An event on a connection that waits for bytes.
use comfirm_dmarc_report_ser.Common.{
  ℕ, ◌≤◌, ◌<◌, ◌⊎◌, ◌≡◌, refl, false, [], ◌∷◌, Option, none, some, arith, length, Bytes, inl, inr,
  Bool-cases, lt→ltb,
}
use comfirm_dmarc_report_ser.Common.Outcome.{ok, fault, out_of_bounds, ◌>>=◌}
use comfirm_dmarc_report_ser.Data.{header_max_len}
use comfirm_dmarc_report_ser.Connection.{failed, writing, Limits, Io, World, reset}
use comfirm_dmarc_report_ser.Connection.Handle.{
  set_status, receive, parse, read, hang_up, finish, handle,
}
use comfirm_dmarc_report_ser.Request.{Request, data_len}
use comfirm_dmarc_report_ser.Request.Commands.{Parse, parse_commands}
use comfirm_dmarc_report_ser.Request.Commands.Safe.{parse_commands_safe}
use comfirm_dmarc_report_ser.Response.{Response}
use comfirm_dmarc_report_ser.Connection.Handle.Inv.{
  IsRequest, waiting, gone, parsed, After, rest_of, rest-Settled,
}

module _ (lim : Limits) (io : Io) (memory : length io.header_memory ≡ header_max_len) where
  module _ (req : Request) (resp : Response) (w : World) (room : 0 < lim.read_buffer_size) where
    pub read-failed :
        io.received ≡ none
        → read lim io (waiting req resp none w)
          ≡ ok (set_status (waiting req resp (some []) w) failed)
    unfolding read receive
    read-failed e = simp (e, lt→ltb 0 lim.read_buffer_size room)

    pub read-end :
        io.received ≡ some []
        → read lim io (waiting req resp none w) ≡ ok (waiting req resp (some []) w)
    unfolding read receive
    read-end e = simp (e, lt→ltb 0 lim.read_buffer_size room)

    pub read-some :
        (c : ℕ) (cs : Bytes)
        → io.received ≡ some (c ∷ cs)
        → read lim io (waiting req resp none w) ≡ parse lim io (waiting req resp (some (c ∷ cs)) w)
    unfolding read receive
    read-some c cs e = simp (e, lt→ltb 0 lim.read_buffer_size room) (ground arith)

    pub read-bytes :
        (b : Bytes)
        → 0 < length b
        → io.received ≡ some b
        → read lim io (waiting req resp none w) ≡ parse lim io (waiting req resp (some b) w)
    read-bytes [] h e = absurd (omega arith)
    read-bytes (c ∷ cs) h e = read-some c cs e

    -- No mail is complete after these bytes.
    abbrev pub NoMail : Type 0
    NoMail =
        (b : Bytes) (p : Parse)
        → io.received ≡ some b
        → parse_commands lim.data_buffer_size io.stale b req resp ≡ ok p
        → p.req.process ≡ false

    pub parse-Settled :
        (c : ℕ) (cs : Bytes)
        → 0 < lim.write_buffer_size
        → IsRequest lim req
        → io.received ≡ some (c ∷ cs)
        → NoMail
        → ((w' : World) × ((parse lim io (waiting req resp (some (c ∷ cs)) w)
                >>= rest_of lim io memory)
              ≡ ok w')
            × After lim io memory w.queue w')
          ⊎ (((parse lim io (waiting req resp (some (c ∷ cs)) w) >>= rest_of lim io memory)
                ≡ fault out_of_bounds)
              × (length io.stale < 9))
    unfolding parse finish hang_up reset
    parse-Settled c cs size_pos v e no_mail =
        elim (parse_commands_safe lim.data_buffer_size io.stale (c ∷ cs) req resp v.bounded) [
          | inl (p, e', within, same) ↦ inl (go p e' within same)
          | inr (past, short) ↦ inr (simp past refl, short)
        ]
      where
        go :
            (p : Parse)
            → parse_commands lim.data_buffer_size io.stale (c ∷ cs) req resp ≡ ok p
            → data_len p.req ≤ lim.data_buffer_size
            → p.req.headers ≡ req.headers
            → (w' : World) × ((parse lim io (waiting req resp (some (c ∷ cs)) w)
                  >>= rest_of lim io memory)
                ≡ ok w')
              × After lim io memory w.queue w'
        go p e' within same = rw e' (elim (Bool-cases p.too_big) [
          | inl big ↦ (gone w, rw big, ((refl, refl), refl))
          | inr small ↦ rw small (
              simp (no_mail (c ∷ cs) p e e') (
                rest-Settled lim io memory (parsed p (c ∷ cs) w writing) refl size_pos (record {
                  req = p.req;
                  resp = p.resp;
                  has_request = refl;
                  has_response = refl;
                  request_ok = record { headers = rw same v.headers; bounded = within };
                })))
        ])

    -- Whatever a client sends that does not complete a mail, or if it sends nothing, or the read
    -- or a `send` fails: the event is handled to its end, the connection waits for more with a
    -- request and a response that can be used again and an empty buffer, or it is hung up and all
    -- that it held is freed, and the queue is as it was; or a comparison with the commands reads past
    -- the read buffer, and then fewer than nine of its bytes stand behind what was received. The
    -- connection waited for bytes with a request whose data is within its bound and whose headers
    -- are 20, as are those that `malloc` returns for the next request, and both buffers hold at least
    -- one byte.
    pub reading-Settled :
        0 < lim.write_buffer_size
        → IsRequest lim req
        → ((b : Bytes) (p : Parse)
            → io.received ≡ some b
            → parse_commands lim.data_buffer_size io.stale b req resp ≡ ok p
            → p.req.process ≡ false)
        → ((w' : World) × (handle lim io (waiting req resp none w) ≡ ok w')
            × After lim io memory w.queue w')
          ⊎ ((handle lim io (waiting req resp none w) ≡ fault out_of_bounds)
              × (length io.stale < 9))
    unfolding handle finish hang_up reset
    reading-Settled size_pos v no_mail = go io.received refl
      where
        go :
            (o : Option Bytes)
            → io.received ≡ o
            → ((w' : World) × (handle lim io (waiting req resp none w) ≡ ok w')
                × After lim io memory w.queue w')
              ⊎ ((handle lim io (waiting req resp none w) ≡ fault out_of_bounds)
                  × (length io.stale < 9))
        go none e = inl (gone w, rw (read-failed e), ((refl, refl), refl))
        go (some []) e = inl (
          waiting req resp (some []) w,
          rw (read-end e),
          (
            (
              record {
                req = req;
                resp = resp;
                has_request = refl;
                has_response = refl;
                request_ok = v;
              },
              refl,
            ),
            refl,
          ),
        )
        go (some (c ∷ cs)) e = rw (read-some c cs e) (parse-Settled c cs size_pos v e no_mail)

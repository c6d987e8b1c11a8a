-- ===== src/Worker/Keeps.antt =====
-- An event that completes no mail, on any connection of the table.
use comfirm_dmarc_report_ser.Common.{
  ◌≤◌, ◌<◌, ◌≡◌, refl, ap, ◌∙◌, false, [], some, arith, length, get_elem?, set, get_elem?-lt, Bytes,
  inl, inr, Bool-cases,
}
use comfirm_dmarc_report_ser.Common.Outcome.{ok}
use comfirm_dmarc_report_ser.Data.{header_max_len}
use comfirm_dmarc_report_ser.Connection.{
  Connection, Status, started, reading, failed, writing, closed, inactive, Limits, World, buffered,
  reset, start,
}
use comfirm_dmarc_report_ser.Connection.Handle.{handle, finish, hang_up}
use comfirm_dmarc_report_ser.Connection.Handle.Inv.{Live, gone}
use comfirm_dmarc_report_ser.Connection.Handle.Reading.{reading-Settled}
use comfirm_dmarc_report_ser.Request
use comfirm_dmarc_report_ser.Request.{Request}
use comfirm_dmarc_report_ser.Request.Commands.{Parse, parse_commands}
use comfirm_dmarc_report_ser.Response
use comfirm_dmarc_report_ser.Response.{Response}
use comfirm_dmarc_report_ser.Worker.{
  Entry, untouched, known, Event, Worker, world_of, settle, wake, on_entry, on_event, opened,
}
use comfirm_dmarc_report_ser.Worker.Inv.{
  Rests, Fine, AllFine, AllFine-get, AllFine-set, Settled-Rests, waits_lem,
}

module _ (lim : Limits) (write_pos : 0 < lim.write_buffer_size)
    (read_pos : 0 < lim.read_buffer_size) where
  -- What the handling of a connection leaves.
  abbrev Handles : Event → Worker → Connection → Type 0
  Handles e w c =
      (v : World) × (handle lim e.io (world_of w c) ≡ ok v)
      × Rests lim v.conn.status v.conn
      × (v.queue ≡ w.queue)

  Incomplete : Event → Connection → Type 0
  Incomplete e c =
      (req : Request) (resp : Response) (b : Bytes) (p : Parse)
      → c.request ≡ some req
      → c.response ≡ some resp
      → e.io.received ≡ some b
      → parse_commands lim.data_buffer_size e.io.stale b req resp ≡ ok p
      → p.req.process ≡ false

  Handles-Live :
      (e : Event) (w : Worker) (c : Connection) (l : Live lim c)
      → length e.io.header_memory ≡ header_max_len
      → 9 ≤ length e.io.stale
      → c.status ≡ reading
      → buffered c ≡ []
      → Incomplete e c
      → Handles e w c
  unfolding Incomplete
  Handles-Live e w c l memory behind s b no_mail =
      elim (reading-Settled lim e.io memory l.req l.resp (world_of w c) read_pos write_pos
        l.request_ok (λ b p. no_mail l.req l.resp b p l.has_request l.has_response)) [
          | inl (v, done, (settled, queue)) ↦ (
            v,
            waits_lem lim c l e w s b ∙ done,
            Settled-Rests lim v.conn.status v settled,
            queue,
          )
          | inr (past, short) ↦ absurd (omega arith)
        ]

  Handles-opened :
      (e : Event) (w : Worker)
      → length e.memory ≡ header_max_len
      → length e.io.header_memory ≡ header_max_len
      → 9 ≤ length e.io.stale
      → Incomplete e (opened e.memory)
      → Handles e w (opened e.memory)
  unfolding start Request.init
  Handles-opened e w full memory behind no_mail =
      Handles-Live e w (opened e.memory)
        (record {
          req = Request.init e.memory;
          resp = Response.init;
          has_request = refl;
          has_response = refl;
          request_ok = record { headers = full; bounded = omega arith };
        })
        memory behind refl refl no_mail

  Handles-closed :
      (e : Event) (w : Worker) (c : Connection) → Handles e w (record c { status = closed })
  unfolding handle finish hang_up reset
  Handles-closed e w c = (gone (world_of w c), refl, refl, refl)

  -- The connection of an entry that rests, once the loop has woken it.
  woken_lem :
      (e : Event) (w : Worker) (entry : Entry)
      → Fine lim entry
      → (entry ≡ untouched → e.rdhup ≡ false)
      → length e.memory ≡ header_max_len
      → length e.io.header_memory ≡ header_max_len
      → 9 ≤ length e.io.stale
      → ((c : Connection) → wake e entry ≡ ok c → Incomplete e c)
      → (c : Connection) × (wake e entry ≡ ok c) × Handles e w c
  unfolding wake
  woken_lem e w untouched fine unused full memory behind no_mail =
      let woken : wake e untouched ≡ ok (opened e.memory) = simp (unused refl) in
      (
        opened e.memory,
        woken,
        Handles-opened e w full memory behind (no_mail (opened e.memory) woken),
      )
  woken_lem e w (known c) fine unused full memory behind no_mail = elim (Bool-cases e.rdhup) [
    | inl hup ↦ (record c { status = closed }, simp hup, Handles-closed e w c)
    | inr stays ↦ by_status c.status refl stays fine
  ]
    where
      by_status :
          (s : Status)
          → c.status ≡ s
          → e.rdhup ≡ false
          → Rests lim s c
          → (c' : Connection) × (wake e (known c) ≡ ok c') × Handles e w c'
      by_status started h stays rests = elim rests [ ]
      by_status failed h stays rests = elim rests [ ]
      by_status writing h stays rests = elim rests [ ]
      by_status closed h stays rests = elim rests [ ]
      by_status reading h stays (l, b) =
          let woken : wake e (known c) ≡ ok c = simp (stays, h) in
          (c, woken, Handles-Live e w c l memory behind h b (no_mail c woken))
      by_status inactive h stays rests =
          let woken : wake e (known c) ≡ ok (opened e.memory) = simp (stays, h) in
          (
            opened e.memory,
            woken,
            Handles-opened e w full memory behind (no_mail (opened e.memory) woken),
          )

  on_event-entry :
      (e : Event) (w : Worker) (entry : Entry) (c : Connection) (v : World)
      → get_elem? w.conns e.fd ≡ some entry
      → wake e entry ≡ ok c
      → handle lim e.io (world_of w c) ≡ ok v
      → on_event lim e w ≡ ok (settle w e.fd v)
  unfolding on_event on_entry
  on_event-entry e w entry c v at woken h = simp (at, woken, h)

  -- An event that completes no mail, and is not that the client of a descriptor that was never used
  -- closed: the main loop handles it to its end, every connection rests again, the queue is as it
  -- was, and of the table only the entry of the descriptor changes. The descriptor is one of the
  -- table, where every connection rests, both buffers hold at least one byte, nine bytes of the read
  -- buffer stand behind what is received, and `malloc` returns whole headers.
  pub on_event-keeps :
      (e : Event) (w : Worker)
      → AllFine lim w.conns
      → e.fd < length w.conns
      → (get_elem? w.conns e.fd ≡ some untouched → e.rdhup ≡ false)
      → length e.memory ≡ header_max_len
      → length e.io.header_memory ≡ header_max_len
      → 9 ≤ length e.io.stale
      → ((entry : Entry) (c : Connection) (req : Request) (resp : Response) (b : Bytes) (p : Parse)
          → get_elem? w.conns e.fd ≡ some entry
          → wake e entry ≡ ok c
          → c.request ≡ some req
          → c.response ≡ some resp
          → e.io.received ≡ some b
          → parse_commands lim.data_buffer_size e.io.stale b req resp ≡ ok p
          → p.req.process ≡ false)
      → (w' : Worker) × (c : Connection) × (on_event lim e w ≡ ok w')
        × AllFine lim w'.conns
        × (w'.conns ≡ set w.conns e.fd (known c))
        × (w'.queue ≡ w.queue)
  unfolding Incomplete
  on_event-keeps e w good in_table unused memory next_memory behind no_mail =
      let (entry, at) = get_elem?-lt w.conns e.fd in_table in
      let (c, woken, (v, done, rests, queue)) =
        woken_lem e w entry (AllFine-get lim w.conns e.fd entry good at)
          (λ h. unused (at ∙ ap some h)) memory next_memory behind
          (λ c woken req resp b p. no_mail entry c req resp b p at woken) in
      (
        settle w e.fd v,
        v.conn,
        on_event-entry e w entry c v at woken done,
        AllFine-set lim w.conns e.fd (known v.conn) good rests,
        refl,
        queue,
      )

-- ===== src/Config.antt =====
-- The configuration and its file, src/config_file.c.
pub mod Load
pub mod Settings
pub mod Overflow
use comfirm_dmarc_report_ser.Common.{
  ℕ, zero, suc, ◌-◌, Bool, true, false, not, ◌&&◌, ◌||◌, List, [], ◌∷◌, ◌++◌, Option, none, some,
  ltb, leb, ◌==◌, if◌then◌else◌, length, Bytes, codes, c_string, str_eq,
}
use comfirm_dmarc_report_ser.Common.Int.{ℤ, pos, negsuc}
use comfirm_dmarc_report_ser.Common.Outcome.{Outcome, ok, fault, out_of_bounds, ◌>>=◌}

-- `config`
pub record Config : Type 0 where
  pub max_workers : ℤ
  pub max_pending : ℤ
  pub max_clients : ℤ
  pub child_stack_size : ℤ
  pub listen_port : ℤ
  pub server_name : Bytes
  pub hostname : Bytes
  pub daemonize : ℤ
  pub read_buffer_size : ℤ
  pub write_buffer_size : ℤ
  pub data_buffer_size : ℤ
  pub tcp_nodelay : ℤ
  pub chroot : Bytes
  pub queue_file : Bytes
  pub queue_size : ℤ
  pub web_service_url : Bytes

-- `config_load_default`
unfoldable pub load_default : Config
load_default = record {
  max_workers = pos 1;
  max_pending = pos 128000;
  max_clients = pos 128000;
  child_stack_size = pos 128000;
  listen_port = pos 25;
  server_name = codes "Comfirm DMARC Server";
  hostname = codes "dmarc.amail.io";
  daemonize = pos 1;
  read_buffer_size = pos 4046;
  write_buffer_size = pos 131072;
  data_buffer_size = pos 40000;
  tcp_nodelay = pos 1;
  chroot = codes "";
  queue_file = codes "/tmp/rest-queue";
  queue_size = pos 100000;
  web_service_url = codes "http://localhost/";
}

-- `atoi` is the C library's.
module _ (atoi : Bytes → ℤ) where
  -- `config_save_value`
  unfoldable pub save_value : Bytes → Bytes → Config → Config
  save_value key value conf =
      if str_eq key (codes "listen-port")
      then record conf { listen_port = atoi value }
      else if str_eq key (codes "max-workers")
      then record conf { max_workers = atoi value }
      else if str_eq key (codes "child-stack-size")
      then record conf { child_stack_size = atoi value }
      else if str_eq key (codes "max-pending")
      then record conf { max_pending = atoi value }
      else if str_eq key (codes "max-clients")
      then record conf { max_clients = atoi value }
      else if str_eq key (codes "server-name")
      then record conf { server_name = value }
      else if str_eq key (codes "hostname")
      then record conf { hostname = value }
      else if str_eq key (codes "daemonize")
      then record conf { daemonize = atoi value }
      else if str_eq key (codes "read-buffer-size")
      then record conf { read_buffer_size = atoi value }
      else if str_eq key (codes "write-buffer-size")
      then record conf { write_buffer_size = atoi value }
      else if str_eq key (codes "data-buffer-size")
      then record conf { data_buffer_size = atoi value }
      else if str_eq key (codes "tcp-nodelay")
      then record conf { tcp_nodelay = atoi value }
      else if str_eq key (codes "chroot")
      then record conf { chroot = value }
      else if str_eq key (codes "queue-file")
      then record conf { queue_file = value }
      else if str_eq key (codes "queue-size")
      then record conf { queue_size = atoi value }
      else if str_eq key (codes "web-service-url")
      then record conf { web_service_url = value }
      else conf

  -- `config_copy`: the `memcpy`, and a string of its own for each pointer.
  unfoldable pub copy : Config → Config → Config
  copy dest source = save_value (codes "web-service-url") source.web_service_url (
      save_value (codes "queue-file") source.queue_file (
        save_value (codes "chroot") source.chroot (
          save_value (codes "hostname") source.hostname (
            save_value (codes "hostname") source.hostname
              (save_value (codes "server-name") source.server_name source)))))

-- `char key[512]` and `char line[4048]`
abbrev pub key_size : ℕ
key_size = 512

abbrev pub line_size : ℕ
line_size = 4048

-- What a line gives: the first `key_len` bytes of `key`, the first `value_len` of `value`, and
-- whether the key still grows (`is_key`; `is_value` is its opposite).
pub record Line : Type 0 where
  pub key : Bytes
  pub value : Bytes
  pub is_key : Bool

-- One byte of the key. It must fit, and so must the NUL that `=` puts behind it.
unfoldable pub put_key : ℕ → Line → Outcome Line
put_key c l =
    if c == 32
    then ok l
    else if ltb (length l.key) key_size
    then ok (record l { key = l.key ++ c ∷ [] })
    else fault out_of_bounds

unfoldable pub end_key : Line → Outcome Line
end_key l =
    if l.is_key
    then (if ltb (length l.key) key_size
        then ok (record l { is_key = false })
        else fault out_of_bounds)
    else ok l

-- A space before the first byte of the value is left out. `value` is larger than a line.
unfoldable pub put_value : ℕ → Line → Line
put_value c l =
    if c == 32 && (length l.value == 0) then l else record l { value = l.value ++ c ∷ [] }

-- The switch on a byte that is no `#`.
unfoldable pub put : ℕ → Line → Outcome Line
unfolding put_key end_key put_value
put c l =
    if c == 61
    then end_key l
    else if c == 9 || c == 13 || c == 10
    then ok l
    else if l.is_key
    then put_key c l
    else ok (put_value c l)

-- The loop over the bytes of a line: a `#` ends it.
unfoldable pub scan : Bytes → Line → Outcome Line
scan [] l = ok l
scan (c ∷ cs) l = if c == 35 then ok l else (put c l >>= λ l'. scan cs l')

-- `fgets` line by line: a line ends with its newline, or where the buffer is full. `room` bytes may
-- still be put into it.
unfoldable pub lines : ℕ → Bytes → List Bytes
lines room [] = []
lines room (c ∷ cs) =
    if c == 10 || leb room 1
    then (c ∷ []) ∷ lines (line_size - 1) cs
    else add_to c (lines (room - 1) cs)
  where
    add_to : ℕ → List Bytes → List Bytes
    add_to c [] = (c ∷ []) ∷ []
    add_to c (l ∷ ls) = (c ∷ l) ∷ ls

module _ (atoi : Bytes → ℤ) where
  -- The body of the loop of `config_load`.
  unfoldable pub load_line : Bytes → Config → Outcome Config
  load_line line conf =
      if ltb 1 (length (c_string line))
      then (scan (c_string line) (record { key = []; value = []; is_key = true }) >>= λ l.
          if ltb 0 (length l.key) && ltb 0 (length l.value)
          then ok (save_value atoi l.key l.value conf)
          else ok conf)
      else ok conf

  unfoldable pub load_lines : List Bytes → Config → Outcome Config
  load_lines [] conf = ok conf
  load_lines (l ∷ ls) conf = load_line l conf >>= λ conf'. load_lines ls conf'

  -- `config_load`, with the text of the file, or `none` where it cannot be opened: what is returned
  -- (0 or -1) and the configuration.
  unfoldable pub load : Option Bytes → Config → Outcome (ℤ × Config)
  load none conf = ok (negsuc 0, conf)
  load (some text) conf =
      load_lines (lines (line_size - 1) text) conf >>= λ conf'. ok (pos 0, conf')

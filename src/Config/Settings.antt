-- ===== src/Config/Settings.antt =====
-- What a configuration file sets: each setting of `config_load` by the last line with its name.
use comfirm_dmarc_report_ser.Common.{
  ◌≡◌, refl, ap, ◌∙◌, Bool-cases, inl, inr, false, List, [], ◌∷◌, Option, none, some, if◌then◌else◌,
  Bytes, codes, str_eq, str_eq_iff,
}
use comfirm_dmarc_report_ser.Common.Int.{ℤ, pos}
use comfirm_dmarc_report_ser.Common.Outcome.{ok}
use comfirm_dmarc_report_ser.Config.{Config, save_value, load}
use comfirm_dmarc_report_ser.Config.Load.{
  Setting, stripped, AllSettings, file_text, save_all, load-save_all,
}

-- A value that is given later, if there is one, and else one that is given before.
abbrev pub over : Option Bytes → Option Bytes → Option Bytes
over none earlier = earlier
over (some v) earlier = some v

-- A value that is given for a key.
abbrev pub if_named : Bytes → Bytes → Bytes → Option Bytes
if_named key name v = if str_eq key name then some v else none

-- The value of the last setting with a name, as it is read.
abbrev pub last_value : List Setting → Bytes → Option Bytes
last_value [] name = none
last_value (s ∷ ss) name =
    over (last_value ss name) (if_named s.key name (s.lead ∷ stripped s.more))

-- A text or a number that is set if there is a value, and is as it was if there is none.
abbrev pub text_or : Option Bytes → Bytes → Bytes
text_or none old = old
text_or (some v) old = v

text_or-over :
    (b a : Option Bytes) (old : Bytes) → text_or b (text_or a old) ≡ text_or (over b a) old
text_or-over none a old = refl
text_or-over (some v) a old = refl

module _ (atoi : Bytes → ℤ) where
  abbrev pub number_or : Option Bytes → ℤ → ℤ
  number_or none old = old
  number_or (some v) old = atoi v

  -- The configuration where each name has the value given for it, if any.
  abbrev pub configured : (Bytes → Option Bytes) → Config → Config
  configured given conf = record {
    max_workers = number_or (given (codes "max-workers")) conf.max_workers;
    max_pending = number_or (given (codes "max-pending")) conf.max_pending;
    max_clients = number_or (given (codes "max-clients")) conf.max_clients;
    child_stack_size = number_or (given (codes "child-stack-size")) conf.child_stack_size;
    listen_port = number_or (given (codes "listen-port")) conf.listen_port;
    server_name = text_or (given (codes "server-name")) conf.server_name;
    hostname = text_or (given (codes "hostname")) conf.hostname;
    daemonize = number_or (given (codes "daemonize")) conf.daemonize;
    read_buffer_size = number_or (given (codes "read-buffer-size")) conf.read_buffer_size;
    write_buffer_size = number_or (given (codes "write-buffer-size")) conf.write_buffer_size;
    data_buffer_size = number_or (given (codes "data-buffer-size")) conf.data_buffer_size;
    tcp_nodelay = number_or (given (codes "tcp-nodelay")) conf.tcp_nodelay;
    chroot = text_or (given (codes "chroot")) conf.chroot;
    queue_file = text_or (given (codes "queue-file")) conf.queue_file;
    queue_size = number_or (given (codes "queue-size")) conf.queue_size;
    web_service_url = text_or (given (codes "web-service-url")) conf.web_service_url;
  }

  -- One test of the chain.
  choose :
      (key name : Bytes) (x y z : Config)
      → (key ≡ name → x ≡ z)
      → (str_eq key name ≡ false → y ≡ z)
      → (if str_eq key name then x else y) ≡ z
  choose key name x y z same other = elim (Bool-cases (str_eq key name)) [
    | inl e ↦ simp e (same ((str_eq_iff key name).0 e))
    | inr n ↦ simp n (other n)
  ]

  save_value-configured :
      (key v : Bytes) (conf : Config)
      → save_value atoi key v conf ≡ configured (λ name. if_named key name v) conf
  unfolding save_value
  save_value-configured key v conf =
      choose key (codes "listen-port") _ _ _ (λ e. rw e refl)
        (λ n1.
          choose key (codes "max-workers") _ _ _ (λ e. rw e refl)
            (λ n2.
              choose key (codes "child-stack-size") _ _ _ (λ e. rw e refl)
                (λ n3.
                  choose key (codes "max-pending") _ _ _ (λ e. rw e refl)
                    (λ n4.
                      choose key (codes "max-clients") _ _ _ (λ e. rw e refl)
                        (λ n5.
                          choose key (codes "server-name") _ _ _ (λ e. rw e refl)
                            (λ n6.
                              choose key (codes "hostname") _ _ _ (λ e. rw e refl)
                                (λ n7.
                                  choose key (codes "daemonize") _ _ _ (λ e. rw e refl)
                                    (λ n8.
                                      choose key (codes "read-buffer-size") _ _ _ (λ e. rw e refl)
                                        (λ n9.
                                          choose key (codes "write-buffer-size") _ _ _
                                            (λ e. rw e refl)
                                            (λ n10.
                                              choose key (codes "data-buffer-size") _ _ _
                                                (λ e. rw e refl)
                                                (λ n11.
                                                  choose key (codes "tcp-nodelay") _ _ _
                                                    (λ e. rw e refl)
                                                    (λ n12.
                                                      choose key (codes "chroot") _ _ _
                                                        (λ e. rw e refl)
                                                        (λ n13.
                                                          choose key (codes "queue-file") _ _ _
                                                            (λ e. rw e refl)
                                                            (λ n14.
                                                            choose key (codes "queue-size") _ _ _
                                                            (λ e. rw e refl)
                                                            (λ n15.
                                                            choose key (codes "web-service-url") _ _
                                                            _ (λ e. rw e refl)
                                                            (λ n16.
                                                            simp
                                                            (
                                                            n1, n2, n3, n4, n5, n6, n7, n8, n9, n10,
                                                            n11, n12, n13, n14, n15, n16,
                                                            )
                                                            refl))))))))))))))))

  number_or-over :
      (b a : Option Bytes) (old : ℤ) → number_or b (number_or a old) ≡ number_or (over b a) old
  number_or-over none a old = refl
  number_or-over (some v) a old = refl

  configured-over :
      (b a : Bytes → Option Bytes) (conf : Config)
      → configured b (configured a conf) ≡ configured (λ name. over (b name) (a name)) conf
  configured-over b a conf = λ i. record {
    max_workers =
        number_or-over (b (codes "max-workers")) (a (codes "max-workers")) conf.max_workers i;
    max_pending =
        number_or-over (b (codes "max-pending")) (a (codes "max-pending")) conf.max_pending i;
    max_clients =
        number_or-over (b (codes "max-clients")) (a (codes "max-clients")) conf.max_clients i;
    child_stack_size =
        number_or-over (b (codes "child-stack-size")) (a (codes "child-stack-size"))
          conf.child_stack_size i;
    listen_port =
        number_or-over (b (codes "listen-port")) (a (codes "listen-port")) conf.listen_port i;
    server_name =
        text_or-over (b (codes "server-name")) (a (codes "server-name")) conf.server_name i;
    hostname = text_or-over (b (codes "hostname")) (a (codes "hostname")) conf.hostname i;
    daemonize = number_or-over (b (codes "daemonize")) (a (codes "daemonize")) conf.daemonize i;
    read_buffer_size =
        number_or-over (b (codes "read-buffer-size")) (a (codes "read-buffer-size"))
          conf.read_buffer_size i;
    write_buffer_size =
        number_or-over (b (codes "write-buffer-size")) (a (codes "write-buffer-size"))
          conf.write_buffer_size i;
    data_buffer_size =
        number_or-over (b (codes "data-buffer-size")) (a (codes "data-buffer-size"))
          conf.data_buffer_size i;
    tcp_nodelay =
        number_or-over (b (codes "tcp-nodelay")) (a (codes "tcp-nodelay")) conf.tcp_nodelay i;
    chroot = text_or-over (b (codes "chroot")) (a (codes "chroot")) conf.chroot i;
    queue_file = text_or-over (b (codes "queue-file")) (a (codes "queue-file")) conf.queue_file i;
    queue_size = number_or-over (b (codes "queue-size")) (a (codes "queue-size")) conf.queue_size i;
    web_service_url =
        text_or-over (b (codes "web-service-url")) (a (codes "web-service-url"))
          conf.web_service_url i;
  }

  save_all-configured :
      (ss : List Setting) (conf : Config) → save_all atoi ss conf ≡ configured (last_value ss) conf
  save_all-configured [] conf = refl
  save_all-configured (s ∷ ss) conf =
      let v = s.lead ∷ stripped s.more in
      ap (save_all atoi ss) (save_value-configured s.key v conf)
      ∙ save_all-configured ss (configured (λ name. if_named s.key name v) conf)
      ∙ configured-over (last_value ss) (λ name. if_named s.key name v) conf

  -- A file of settings, one to a line of at most 4047 bytes. A key has 1 to 511 bytes, none of them
  -- a NUL, white space, `#` or `=`; a value begins with such a byte and has no NUL, tab, line end
  -- or `#`. Then `config_load` returns 0, and each of the sixteen values of the configuration is
  -- that of the last line with its name, without the `=` in it and as a number where it is one, or
  -- as it was before if no line has its name.
  pub load_settings :
      (ss : List Setting) (conf : Config)
      → AllSettings ss
      → load atoi (some (file_text ss)) conf ≡ ok (pos 0, configured (last_value ss) conf)
  load_settings ss conf h =
      load-save_all atoi ss conf h
      ∙ ap (λ (c : Config). ok (pos 0, c)) (save_all-configured ss conf)

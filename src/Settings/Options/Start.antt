-- ===== src/Settings/Options/Start.antt =====
-- cli.c, loraham_kiss_tnc.c: the configuration that the program starts with.
use loraham_kiss_tnc.Base.{
  ℕ, ◌<◌, Bool, true, not, ◌||◌, List, [], ◌∷◌, Option, none, some, leb, if_intro, Bytes, length,
  codes, is_empty, same_text, Result, ok, fail, arith,
}
use loraham_kiss_tnc.Bridge.Shared.{Config, config_zero}
use loraham_kiss_tnc.Settings.Bind.{host_max, path_max, sockpath, loopback, config_defaults}
use loraham_kiss_tnc.Settings.Load.{load_file-Kept}
use loraham_kiss_tnc.Settings.Options.{
  Opt, opt_config, opt_kiss_host, opt_kiss_port, opt_bind, opt_data_socket, opt_conf_socket,
  opt_rx_freq, opt_tx_freq, opt_rf_log, opt_rf_log_path, opt_tx_settle_ms, opt_tx_return_ms,
  opt_tx_busy_timeout_ms, opt_tx_queue_len, opt_tx_packet_ttl_ms, opt_rx_only, opt_verbose,
  opt_help, opt_version, opt_unknown, Parsed, parsed, exits, starts_slash, apply_rf_log,
  apply_rf_log_path, find_config_arg, apply_option, parse_cli_args, load_config, after_file,
  cli_apply,
}
use loraham_kiss_tnc.Settings.Kept.{
  Kept, store_value-Kept, store_text-Kept, bind_apply_intro, bind_apply-Kept, listen_host-lt,
  spec_text-lt,
}
use loraham_kiss_tnc.Settings.Ranges.{
  Between, InRange, length-take, parse_int_arg-Between, parse_double_arg-Between,
}
use loraham_kiss_tnc.Settings.Values.{
  copy_string, parse_int_arg, parse_double_arg, freq_min, freq_max,
}

-- The program exits, or goes on with a configuration in its ranges, whether the call succeeds or not.
abbrev pub ParsedInRange : Parsed → Type 0
ParsedInRange exits = Unit
ParsedInRange (parsed x) = Kept x

apply_rf_log-Kept : (cfg : Config) (v : Bytes) → InRange cfg → Kept (apply_rf_log cfg v)
apply_rf_log-Kept cfg v i =
    if_intro Kept (same_text v (codes "on")) (λ _. ground arith)
      (λ _. if_intro Kept (same_text v (codes "off")) (λ _. ground arith) (λ _. i))

apply_rf_log_path-Kept : (cfg : Config) (v : Bytes) → InRange cfg → Kept (apply_rf_log_path cfg v)
apply_rf_log_path-Kept cfg v i =
    if_intro Kept (not (starts_slash v) || leb path_max (length v)) (λ _. i) (λ short. ground arith)

module _ (inet_pton : Bytes → Option ℕ) (strtod : Bytes → Option (ℕ × Bytes)) where
  apply_option-InRange :
      (cfg : Config) (o : Opt) → InRange cfg → ParsedInRange (apply_option inet_pton strtod cfg o)
  unfolding apply_option
  apply_option-InRange cfg (opt_config v) i = i
  apply_option-InRange cfg opt_verbose i = ground arith
  apply_option-InRange cfg opt_help i = tt
  apply_option-InRange cfg opt_version i = tt
  apply_option-InRange cfg opt_unknown i = i
  apply_option-InRange cfg opt_rx_only i = ground arith
  apply_option-InRange cfg (opt_bind v) i = bind_apply-Kept inet_pton strtod cfg v i
  apply_option-InRange cfg (opt_rf_log v) i = apply_rf_log-Kept cfg v i
  apply_option-InRange cfg (opt_rf_log_path v) i = apply_rf_log_path-Kept cfg v i
  apply_option-InRange cfg (opt_kiss_host v) i =
      store_text-Kept host_max (λ t. record cfg { kiss_host = t }) v (omega arith)
        (λ t h. ground arith)
  apply_option-InRange cfg (opt_data_socket v) i =
      store_text-Kept path_max (λ t. record cfg { data_socket = t }) v (omega arith)
        (λ t h. ground arith)
  apply_option-InRange cfg (opt_conf_socket v) i =
      store_text-Kept path_max (λ t. record cfg { conf_socket = t }) v (omega arith)
        (λ t h. ground arith)
  apply_option-InRange cfg (opt_kiss_port v) i =
      store_value-Kept (Between 1 65535) cfg (λ n. record cfg { kiss_port = n })
        (parse_int_arg v 1 65535) i (parse_int_arg-Between v 1 65535) (λ n h. ground arith)
  apply_option-InRange cfg (opt_rx_freq v) i =
      store_value-Kept (Between freq_min freq_max) cfg (λ n. record cfg { rx_freq = some n })
        (parse_double_arg strtod v freq_min freq_max) i
        (parse_double_arg-Between strtod v freq_min freq_max) (λ n h. ground arith)
  apply_option-InRange cfg (opt_tx_freq v) i =
      store_value-Kept (Between freq_min freq_max) cfg (λ n. record cfg { tx_freq = some n })
        (parse_double_arg strtod v freq_min freq_max) i
        (parse_double_arg-Between strtod v freq_min freq_max) (λ n h. ground arith)
  apply_option-InRange cfg (opt_tx_settle_ms v) i =
      store_value-Kept (Between 0 60000) cfg (λ n. record cfg { tx_settle_ms = n })
        (parse_int_arg v 0 60000) i (parse_int_arg-Between v 0 60000) (λ n h. ground arith)
  apply_option-InRange cfg (opt_tx_return_ms v) i =
      store_value-Kept (Between 0 60000) cfg (λ n. record cfg { tx_return_ms = n })
        (parse_int_arg v 0 60000) i (parse_int_arg-Between v 0 60000) (λ n h. ground arith)
  apply_option-InRange cfg (opt_tx_busy_timeout_ms v) i =
      store_value-Kept (Between 0 600000) cfg (λ n. record cfg { tx_busy_timeout_ms = n })
        (parse_int_arg v 0 600000) i (parse_int_arg-Between v 0 600000) (λ n h. ground arith)
  apply_option-InRange cfg (opt_tx_queue_len v) i =
      store_value-Kept (Between 1 16) cfg (λ n. record cfg { tx_queue_len = n })
        (parse_int_arg v 1 16) i (parse_int_arg-Between v 1 16) (λ n h. ground arith)
  apply_option-InRange cfg (opt_tx_packet_ttl_ms v) i =
      store_value-Kept (Between 1000 3600000) cfg (λ n. record cfg { tx_packet_ttl_ms = n })
        (parse_int_arg v 1000 3600000) i (parse_int_arg-Between v 1000 3600000)
        (λ n h. ground arith)

  parse_cli_args-InRange :
      (os : List Opt) (cfg : Config) (left : Bool)
      → InRange cfg
      → ParsedInRange (parse_cli_args inet_pton strtod cfg os left)
  unfolding parse_cli_args
  parse_cli_args-InRange [] cfg left i = i
  parse_cli_args-InRange (o ∷ os) cfg left i =
      elim (apply_option inet_pton strtod cfg o)
          as (λ p.
            ParsedInRange p
            → ParsedInRange (elim p as (λ _. Parsed) [
              | exits ↦ exits
              | parsed (cfg', fail e) ↦ parsed (cfg', fail e)
              | parsed (cfg', ok u) ↦ parse_cli_args inet_pton strtod cfg' os left
            ])) [
              | exits ↦ λ _. tt
              | parsed (cfg', fail e) ↦ λ i'. i'
              | parsed (cfg', ok u) ↦ λ i'. parse_cli_args-InRange os cfg' left i'
            ]
        (apply_option-InRange cfg o i)

  after_file-InRange :
      (x : Config × Result (Unit {0})) (os : List Opt) (left : Bool)
      → Kept x
      → ParsedInRange (after_file inet_pton strtod x os left)
  after_file-InRange (cfg, fail e) os left i = i
  after_file-InRange (cfg, ok u) os left i = parse_cli_args-InRange os cfg left i

  load_config-Kept :
      (files : Bytes → Option Bytes) (cfg : Config) (path : Option Bytes)
      → InRange cfg
      → Kept (load_config inet_pton strtod files cfg path)
  load_config-Kept files cfg none i = i
  load_config-Kept files cfg (some path) i =
      if_intro Kept (is_empty path) (λ _. i)
        (λ _. load_file-Kept inet_pton strtod cfg (files path) i)

  short_path : (src : Bytes) → length (copy_string path_max src).0 < path_max
  unfolding copy_string
  short_path src = omega (arith, length-take 255 src)

  config_defaults-InRange :
      (is_socket : Bytes → Bool) → InRange (config_defaults inet_pton is_socket)
  unfolding config_defaults
  config_defaults-InRange is_socket =
      let run_data =
        sockpath inet_pton is_socket (codes "/run/loraham/lora433f.sock")
          (codes "/tmp/lora433f.sock") in
      let run_conf =
        sockpath inet_pton is_socket (codes "/run/loraham/loraconf433.sock")
          (codes "/tmp/loraconf433.sock") in
      let data_short = short_path run_data in
      let conf_short = short_path run_conf in
      bind_apply_intro inet_pton strtod
        (λ x. InRange (record x.0 {
          data_socket = (copy_string path_max run_data).0;
          conf_socket = (copy_string path_max run_conf).0;
          stats_interval = 900;
          tx_settle_ms = 100;
          tx_return_ms = 1000;
          tx_busy_timeout_ms = 120000;
          tx_queue_len = 8;
          tx_packet_ttl_ms = 180000;
          rx_freq = some 433775000000000;
          tx_freq = some 433900000000000;
          sf = 12;
          bw = 125000000000000;
          cr = 5;
          crc = true;
          preamble = 8;
          syncword = 0x12;
          ldro = true;
          power = 17;
        }))
        (record config_zero { kiss_port = 8001 }) loopback (λ e. ground arith)
        (λ net prefix h.
          let short = listen_host-lt net prefix in
          let spec = spec_text-lt net prefix in ground arith)

  -- Whatever stands in the command line and in the file that it names, the program ends there, with an error or
  -- behind its help or version, or runs with a configuration in which every text fits its buffer with its
  -- NUL and every number is within the limits of its key, and whatever it holds at an error is in these
  -- limits too.
  pub cli_apply-InRange :
      (is_socket : Bytes → Bool) (files : Bytes → Option Bytes) (argv : List Bytes) (os : List Opt)
      (left : Bool)
      → ParsedInRange
          (cli_apply inet_pton strtod files (config_defaults inet_pton is_socket) argv os left)
  unfolding cli_apply
  cli_apply-InRange is_socket files argv os left =
      after_file-InRange
        (load_config inet_pton strtod files (config_defaults inet_pton is_socket)
          (find_config_arg argv))
        os left
        (load_config-Kept files (config_defaults inet_pton is_socket) (find_config_arg argv)
          (config_defaults-InRange is_socket))

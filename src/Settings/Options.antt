-- ===== src/Settings/Options.antt =====
-- cli.c: the command line. getopt_long is a parameter in that its answer is the model's input: the list
-- of the options with their arguments, and whether arguments are left behind them. `files` says
-- what stands in a file.
pub mod Start
use loraham_kiss_tnc.Base.{
  ℕ, Bool, true, false, not, ◌&&◌, ◌||◌, List, [], ◌∷◌, Option, none, some, leb, ◌==◌,
  if◌then◌else◌, Bytes, length, codes, is_empty, same_text, Code, err_format, Result, ok, fail,
}
use loraham_kiss_tnc.Bridge.Conf.{behind_prefix}
use loraham_kiss_tnc.Bridge.Shared.{Config}
use loraham_kiss_tnc.Settings.Bind.{bind_apply, host_max, path_max}
use loraham_kiss_tnc.Settings.File.{store_value, store_text, load_file}
use loraham_kiss_tnc.Settings.Values.{
  copy_string, parse_int_arg, parse_double_arg, freq_min, freq_max,
}

pub data Opt : Type 0 where
  opt_config opt_kiss_host opt_kiss_port opt_bind opt_data_socket opt_conf_socket : Bytes → Opt
  opt_rx_freq opt_tx_freq opt_rf_log opt_rf_log_path opt_tx_settle_ms opt_tx_return_ms : Bytes → Opt
  opt_tx_busy_timeout_ms opt_tx_queue_len opt_tx_packet_ttl_ms : Bytes → Opt
  opt_rx_only opt_verbose opt_help opt_version opt_unknown : Opt

-- How the options end: the program goes on with the configuration, or with an error, or it has printed its
-- help or its version and exits.
pub data Parsed : Type 0 where
  parsed : Config × Result (Unit {0}) → Parsed
  exits : Parsed

abbrev pub starts_slash : Bytes → Bool
starts_slash [] = false
starts_slash (c ∷ s) = c == b'/'

abbrev pub apply_rf_log : Config → Bytes → Config × Result (Unit {0})
apply_rf_log cfg v =
    if same_text v (codes "on")
    then (record cfg { rf_log = true }, ok tt)
    else if same_text v (codes "off")
    then (record cfg { rf_log = false }, ok tt)
    else (cfg, fail err_format)

abbrev pub apply_rf_log_path : Config → Bytes → Config × Result (Unit {0})
apply_rf_log_path cfg v =
    if not (starts_slash v) || leb path_max (length v)
    then (cfg, fail err_format)
    else (record cfg { rf_log_path = v }, ok tt)

-- The argument behind -c or --config, in one of its spellings. The first of `argv` is not the
-- program's name.
unfoldable pub find_config_arg : List Bytes → Option Bytes
find_config_arg [] = none
find_config_arg (a ∷ argv) =
    let later = find_config_arg argv in
    if same_text a (codes "-c") || same_text a (codes "--config")
    then elim argv [ [] ↦ none | b ∷ _ ↦ some b ]
    else elim (behind_prefix (codes "--config=") a) [
      | some path ↦ some path
      | none ↦ elim (behind_prefix (codes "-c") a) [ some (c ∷ path) ↦ some (c ∷ path) | _ ↦ later ]
    ]

module _ (inet_pton : Bytes → Option ℕ) (strtod : Bytes → Option (ℕ × Bytes)) where
  unfoldable pub apply_option : Config → Opt → Parsed
  unfolding bind_apply copy_string parse_int_arg parse_double_arg
  apply_option cfg (opt_config v) = parsed (cfg, ok tt)
  apply_option cfg opt_verbose = parsed (record cfg { verbose = true }, ok tt)
  apply_option cfg opt_help = exits
  apply_option cfg opt_version = exits
  apply_option cfg (opt_kiss_host v) =
      parsed (store_text (λ t. record cfg { kiss_host = t }) (copy_string host_max v))
  apply_option cfg (opt_bind v) = parsed (bind_apply inet_pton cfg v)
  apply_option cfg (opt_kiss_port v) =
      parsed (store_value cfg (λ n. record cfg { kiss_port = n }) (parse_int_arg v 1 65535))
  apply_option cfg (opt_data_socket v) =
      parsed (store_text (λ t. record cfg { data_socket = t }) (copy_string path_max v))
  apply_option cfg (opt_conf_socket v) =
      parsed (store_text (λ t. record cfg { conf_socket = t }) (copy_string path_max v))
  apply_option cfg (opt_rx_freq v) = parsed (
      store_value cfg (λ n. record cfg { rx_freq = some n })
        (parse_double_arg strtod v freq_min freq_max))
  apply_option cfg (opt_tx_freq v) = parsed (
      store_value cfg (λ n. record cfg { tx_freq = some n })
        (parse_double_arg strtod v freq_min freq_max))
  apply_option cfg opt_rx_only = parsed (record cfg { rx_only = true }, ok tt)
  apply_option cfg (opt_rf_log v) = parsed (apply_rf_log cfg v)
  apply_option cfg (opt_rf_log_path v) = parsed (apply_rf_log_path cfg v)
  apply_option cfg (opt_tx_settle_ms v) =
      parsed (store_value cfg (λ n. record cfg { tx_settle_ms = n }) (parse_int_arg v 0 60000))
  apply_option cfg (opt_tx_return_ms v) =
      parsed (store_value cfg (λ n. record cfg { tx_return_ms = n }) (parse_int_arg v 0 60000))
  apply_option cfg (opt_tx_busy_timeout_ms v) =
      parsed
        (store_value cfg (λ n. record cfg { tx_busy_timeout_ms = n }) (parse_int_arg v 0 600000))
  apply_option cfg (opt_tx_queue_len v) =
      parsed (store_value cfg (λ n. record cfg { tx_queue_len = n }) (parse_int_arg v 1 16))
  apply_option cfg (opt_tx_packet_ttl_ms v) =
      parsed
        (store_value cfg (λ n. record cfg { tx_packet_ttl_ms = n }) (parse_int_arg v 1000 3600000))
  apply_option cfg opt_unknown = parsed (cfg, fail err_format)

  -- The options one after the other, up to an error or an exit; then nothing may be left.
  unfoldable pub parse_cli_args : Config → List Opt → Bool → Parsed
  unfolding apply_option
  parse_cli_args cfg [] left = parsed (cfg, if left then fail err_format else ok tt)
  parse_cli_args cfg (o ∷ os) left = elim (apply_option cfg o) [
    | exits ↦ exits
    | parsed (cfg', fail e) ↦ parsed (cfg', fail e)
    | parsed (cfg', ok u) ↦ parse_cli_args cfg' os left
  ]

  -- The file named by an option; an empty path is refused.
  abbrev pub load_config :
      (Bytes → Option Bytes) → Config → Option Bytes → Config × Result (Unit {0})
  load_config files cfg none = (cfg, ok tt)
  load_config files cfg (some path) =
      if is_empty path then (cfg, fail Code.err) else load_file inet_pton strtod cfg (files path)

  abbrev pub after_file : Config × Result (Unit {0}) → List Opt → Bool → Parsed
  after_file (cfg, fail e) os left = parsed (cfg, fail e)
  after_file (cfg, ok u) os left = parse_cli_args cfg os left

  unfoldable pub cli_apply : (Bytes → Option Bytes) → Config → List Bytes → List Opt → Bool → Parsed
  unfolding find_config_arg load_file parse_cli_args
  cli_apply files cfg argv os left =
      after_file (load_config files cfg (find_config_arg argv)) os left

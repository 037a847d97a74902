-- ===== src/Settings/File.antt =====
-- config.c: the lines of the configuration file. The C code compares the key with one name after the
-- other; the model does so in `key_of`, and what each name does stands in `set_value`.
use loraham_kiss_tnc.Base.{
  ℕ, ◌+◌, Bool, true, false, ◌||◌, ◌∷◌, [], ◌++◌, Option, none, some, leb, ◌==◌, if◌then◌else◌,
  Bytes, length, codes, cut, is_empty, same_text, Code, err_format, err_long, Result, ok, fail,
}
use loraham_kiss_tnc.Bridge.Shared.{Config}
use loraham_kiss_tnc.Settings.Bind.{bind_apply, host_max, path_max}
use loraham_kiss_tnc.Settings.Values.{
  trim, parse_long_value, parse_bool_value, parse_double_value, parse_optional_freq, copy_string,
}

pub data Key : Type 0 where
  kiss_host bind data_socket conf_socket kiss_port rf_log rf_log_path rx_only verbose : Key
  stats_interval tx_settle_ms tx_return_ms tx_busy_timeout_ms tx_queue_len : Key
  tx_packet_ttl_ms rx_freq tx_freq sf bw cr crc preamble syncword ldro power : Key

unfoldable pub key_of : Bytes → Option Key
key_of key =
    if same_text key (codes "kiss_host")
    then some kiss_host
    else if same_text key (codes "bind")
    then some bind
    else if same_text key (codes "data_socket")
    then some data_socket
    else if same_text key (codes "conf_socket")
    then some conf_socket
    else if same_text key (codes "kiss_port")
    then some kiss_port
    else if same_text key (codes "rf_log")
    then some rf_log
    else if same_text key (codes "rf_log_path")
    then some rf_log_path
    else if same_text key (codes "rx_only")
    then some rx_only
    else if same_text key (codes "verbose")
    then some verbose
    else if same_text key (codes "stats_interval")
    then some stats_interval
    else if same_text key (codes "tx_settle_ms")
    then some tx_settle_ms
    else if same_text key (codes "tx_return_ms")
    then some tx_return_ms
    else if same_text key (codes "tx_busy_timeout_ms")
    then some tx_busy_timeout_ms
    else if same_text key (codes "tx_queue_len")
    then some tx_queue_len
    else if same_text key (codes "tx_packet_ttl_ms")
    then some tx_packet_ttl_ms
    else if same_text key (codes "rx_freq")
    then some rx_freq
    else if same_text key (codes "tx_freq")
    then some tx_freq
    else if same_text key (codes "sf")
    then some sf
    else if same_text key (codes "bw")
    then some bw
    else if same_text key (codes "cr")
    then some cr
    else if same_text key (codes "crc")
    then some crc
    else if same_text key (codes "preamble")
    then some preamble
    else if same_text key (codes "syncword")
    then some syncword
    else if same_text key (codes "ldro")
    then some ldro
    else if same_text key (codes "power")
    then some power
    else none

-- A value that was read is stored; else the configuration stays.
abbrev pub store_value {ℓ} :
    {A : Type ℓ} → Config → (A → Config) → Result A → Config × Result (Unit {0})
store_value cfg put (fail e) = (cfg, fail e)
store_value cfg put (ok a) = (put a, ok tt)

-- A text is stored as far as it fits, whether or not it does.
abbrev pub store_text : (Bytes → Config) → Bytes × Result (Unit {0}) → Config × Result (Unit {0})
store_text put (text, r) = (put text, r)

-- 1.0 and 1000.0.
abbrev pub bw_min : ℕ
bw_min = 1000000000000

abbrev pub bw_max : ℕ
bw_max = 1000000000000000

-- fgets reads into a buffer of this size.
abbrev pub file_line_max : ℕ
file_line_max = 512

module _ (inet_pton : Bytes → Option ℕ) (strtod : Bytes → Option (ℕ × Bytes)) where
  unfoldable pub set_value : Config → Key → Bytes → Config × Result (Unit {0})
  unfolding bind_apply parse_long_value parse_bool_value parse_double_value parse_optional_freq
      copy_string
  set_value cfg kiss_host v =
      store_text (λ t. record cfg { kiss_host = t }) (copy_string host_max v)
  set_value cfg bind v = bind_apply inet_pton cfg v
  set_value cfg data_socket v =
      store_text (λ t. record cfg { data_socket = t }) (copy_string path_max v)
  set_value cfg conf_socket v =
      store_text (λ t. record cfg { conf_socket = t }) (copy_string path_max v)
  set_value cfg kiss_port v =
      store_value cfg (λ n. record cfg { kiss_port = n }) (parse_long_value v 1 65535)
  set_value cfg rf_log v = store_value cfg (λ b. record cfg { rf_log = b }) (parse_bool_value v)
  set_value cfg rf_log_path v =
      store_text (λ t. record cfg { rf_log_path = t }) (copy_string path_max v)
  set_value cfg rx_only v = store_value cfg (λ b. record cfg { rx_only = b }) (parse_bool_value v)
  set_value cfg verbose v = store_value cfg (λ b. record cfg { verbose = b }) (parse_bool_value v)
  set_value cfg stats_interval v =
      store_value cfg (λ n. record cfg { stats_interval = n }) (parse_long_value v 0 86400)
  set_value cfg tx_settle_ms v =
      store_value cfg (λ n. record cfg { tx_settle_ms = n }) (parse_long_value v 0 60000)
  set_value cfg tx_return_ms v =
      store_value cfg (λ n. record cfg { tx_return_ms = n }) (parse_long_value v 0 60000)
  set_value cfg tx_busy_timeout_ms v =
      store_value cfg (λ n. record cfg { tx_busy_timeout_ms = n }) (parse_long_value v 0 600000)
  set_value cfg tx_queue_len v =
      store_value cfg (λ n. record cfg { tx_queue_len = n }) (parse_long_value v 1 16)
  set_value cfg tx_packet_ttl_ms v =
      store_value cfg (λ n. record cfg { tx_packet_ttl_ms = n }) (parse_long_value v 1000 3600000)
  set_value cfg rx_freq v =
      store_value cfg (λ f. record cfg { rx_freq = f }) (parse_optional_freq strtod v)
  set_value cfg tx_freq v =
      store_value cfg (λ f. record cfg { tx_freq = f }) (parse_optional_freq strtod v)
  set_value cfg sf v = store_value cfg (λ n. record cfg { sf = n }) (parse_long_value v 7 12)
  set_value cfg bw v =
      store_value cfg (λ n. record cfg { bw = n }) (parse_double_value strtod v bw_min bw_max)
  set_value cfg cr v = store_value cfg (λ n. record cfg { cr = n }) (parse_long_value v 5 8)
  set_value cfg crc v = store_value cfg (λ b. record cfg { crc = b }) (parse_bool_value v)
  set_value cfg preamble v =
      store_value cfg (λ n. record cfg { preamble = n }) (parse_long_value v 1 65535)
  set_value cfg syncword v =
      store_value cfg (λ n. record cfg { syncword = n }) (parse_long_value v 0 255)
  set_value cfg ldro v =
      if same_text v (codes "AUTO") || same_text v (codes "auto")
      then (record cfg { ldro_auto = true }, ok tt)
      else store_value cfg (λ b. record cfg { ldro = b; ldro_auto = false }) (parse_bool_value v)
  set_value cfg power v = store_value cfg (λ n. record cfg { power = n }) (parse_long_value v 0 20)

  abbrev pub set_key : Config → Bytes → Bytes → Config × Result (Unit {0})
  set_key cfg key value =
      if is_empty key
      then (cfg, fail err_format)
      else elim (key_of key) [ none ↦ (cfg, fail err_format) | some k ↦ set_value cfg k value ]

  -- The line with its comment cut off and its ends trimmed.
  abbrev pub parse_entry : Config → Bytes → Config × Result (Unit {0})
  parse_entry cfg line = if is_empty line then (cfg, ok tt) else elim (cut b'=' line).1 [
    | none ↦ (cfg, fail err_format)
    | some value ↦ set_key cfg (trim (cut b'=' line).0) (trim value)
  ]

  unfoldable pub parse_config_line : Config → Bytes → Config × Result (Unit {0})
  unfolding set_value key_of trim
  parse_config_line cfg line = parse_entry cfg (trim (cut b'#' line).0)

  -- What fgets has put into the buffer, as the C string that the code sees: without an LF that it
  -- sees, only the end of the file may have ended it.
  abbrev pub take_chunk : Config → Bytes → Bool → Config × Result (Unit {0})
  take_chunk cfg chunk at_eof = elim (cut b'\n' (cut 0 chunk).0).1 [
    | none ↦ if at_eof then parse_config_line cfg (cut 0 chunk).0 else (cfg, fail err_long)
    | some rest ↦ parse_config_line cfg (cut 0 chunk).0
  ]

  -- The file's bytes, with those that fgets has read of the present line. It stops behind an LF, or when
  -- the buffer holds 511 bytes, or at the end of the file.
  unfoldable pub load_from : Config → Bytes → Bytes → Config × Result (Unit {0})
  unfolding parse_config_line
  load_from cfg chunk [] = if is_empty chunk then (cfg, ok tt) else take_chunk cfg chunk true
  load_from cfg chunk (b ∷ file) = elim (b == b'\n' || leb file_line_max (length chunk + 2)) [
    | false ↦ load_from cfg (chunk ++ b ∷ []) file
    | true ↦
        let (cfg', r) = take_chunk cfg (chunk ++ b ∷ []) false in
        elim r [ fail e ↦ (cfg', fail e) | ok u ↦ load_from cfg' [] file ]
  ]

  -- `none` is a file that cannot be opened.
  unfoldable pub load_file : Config → Option Bytes → Config × Result (Unit {0})
  unfolding load_from
  load_file cfg none = (cfg, fail Code.err)
  load_file cfg (some file) = load_from cfg [] file

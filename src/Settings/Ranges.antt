-- ===== src/Settings/Ranges.antt =====
-- config.c, cli.c: the range that each parser of a value keeps.
use loraham_kiss_tnc.Base.{
  ℕ, zero, suc, ◌≤◌, ◌<◌, not, ◌||◌, [], ◌∷◌, Option, none, some, if_intro, if◌then◌else◌, Bytes,
  length, take, is_empty, Number, read_long, err_format, Result, ok, fail, OnOk, bind-OnOk,
  guard-OnOk, OnSome, arith,
}
use loraham_kiss_tnc.Bridge.Shared.{Config}
use loraham_kiss_tnc.Settings.Bind.{host_max, path_max}
use loraham_kiss_tnc.Settings.File.{bw_min, bw_max}
use loraham_kiss_tnc.Settings.Values.{
  trim, in_range, parse_long_value, parse_int_arg, double_in_range, parse_double_value,
  parse_double_arg, freq_min, freq_max, parse_optional_freq,
}

abbrev pub Between : ℕ → ℕ → ℕ → Type 0
Between min max n = (min ≤ n) × (n ≤ max)

abbrev pub FreqInRange : Option ℕ → Type 0
FreqInRange = OnSome (Between freq_min freq_max)

-- What the rest of the program may count on.
pub record InRange (cfg : Config) : Type 0 where
  pub kiss_host_lt : length cfg.kiss_host < host_max
  pub bind_spec_lt : length cfg.bind_spec < host_max
  pub data_socket_lt : length cfg.data_socket < path_max
  pub conf_socket_lt : length cfg.conf_socket < path_max
  pub rf_log_path_lt : length cfg.rf_log_path < path_max
  pub kiss_port_ok : Between 1 65535 cfg.kiss_port
  pub bind_prefix_le : cfg.bind_prefix ≤ 32
  pub stats_interval_le : cfg.stats_interval ≤ 86400
  pub tx_settle_le : cfg.tx_settle_ms ≤ 60000
  pub tx_return_le : cfg.tx_return_ms ≤ 60000
  pub tx_busy_timeout_le : cfg.tx_busy_timeout_ms ≤ 600000
  pub tx_queue_len_ok : Between 1 16 cfg.tx_queue_len
  pub tx_packet_ttl_ok : Between 1000 3600000 cfg.tx_packet_ttl_ms
  pub rx_freq_ok : FreqInRange cfg.rx_freq
  pub tx_freq_ok : FreqInRange cfg.tx_freq
  pub sf_ok : Between 7 12 cfg.sf
  pub bw_ok : Between bw_min bw_max cfg.bw
  pub cr_ok : Between 5 8 cfg.cr
  pub preamble_ok : Between 1 65535 cfg.preamble
  pub syncword_le : cfg.syncword ≤ 255
  pub power_le : cfg.power ≤ 20

in_range-Between : (min max : ℕ) (n : Number) → OnOk (Between min max) (in_range min max n)
in_range-Between min max n = ground arith

pub parse_long_value-Between :
    (text : Bytes) (min max : ℕ) → OnOk (Between min max) (parse_long_value text min max)
unfolding parse_long_value
parse_long_value-Between text min max =
    guard-OnOk (Between min max) (is_empty text || not (is_empty (trim (read_long 0 text).rest)))
      err_format (in_range min max (read_long 0 text))
      (λ _. in_range-Between min max (read_long 0 text))

pub parse_int_arg-Between :
    (text : Bytes) (min max : ℕ) → OnOk (Between min max) (parse_int_arg text min max)
unfolding parse_int_arg
parse_int_arg-Between text min max =
    guard-OnOk (Between min max) (is_empty text || not (is_empty (read_long 0 text).rest))
      err_format (in_range min max (read_long 0 text))
      (λ _. in_range-Between min max (read_long 0 text))

pub length-take : (n : ℕ) (s : Bytes) → length (take n s) ≤ n
length-take zero s = omega arith
length-take (suc n) [] = omega arith
length-take (suc n) (c ∷ s) = omega (arith, length-take n s)

double_in_range-Between : (min max n : ℕ) → OnOk (Between min max) (double_in_range min max n)
double_in_range-Between min max n = ground arith

module _ (strtod : Bytes → Option (ℕ × Bytes)) where
  pub parse_double_value-Between :
      (text : Bytes) (min max : ℕ) → OnOk (Between min max) (parse_double_value strtod text min max)
  unfolding parse_double_value
  parse_double_value-Between text min max =
      guard-OnOk (Between min max) (is_empty text) err_format _ (λ _.
        elim (strtod text)
          as (λ o. OnOk (Between min max) (elim o as (λ _. Result ℕ) [
            | none ↦ fail err_format
            | some (n, rest) ↦
                if is_empty (trim rest) then double_in_range min max n else fail err_format
          ])) [
            | none ↦ tt
            | some (n, rest) ↦
                if_intro (OnOk (Between min max)) (is_empty (trim rest))
                  (λ _. double_in_range-Between min max n) (λ _. tt)
          ])

  pub parse_double_arg-Between :
      (text : Bytes) (min max : ℕ) → OnOk (Between min max) (parse_double_arg strtod text min max)
  unfolding parse_double_arg
  parse_double_arg-Between text min max =
      guard-OnOk (Between min max) (is_empty text) err_format _ (λ _.
        elim (strtod text)
          as (λ o. OnOk (Between min max) (elim o as (λ _. Result ℕ) [
            | none ↦ fail err_format
            | some (n, rest) ↦ if is_empty rest then double_in_range min max n else fail err_format
          ])) [
            | none ↦ tt
            | some (n, rest) ↦
                if_intro (OnOk (Between min max)) (is_empty rest)
                  (λ _. double_in_range-Between min max n) (λ _. tt)
          ])

  pub parse_optional_freq-FreqInRange :
      (v : Bytes) → OnOk FreqInRange (parse_optional_freq strtod v)
  unfolding parse_optional_freq
  parse_optional_freq-FreqInRange v =
      if_intro (OnOk FreqInRange) (is_empty v) (λ _. tt)
        (λ _.
          bind-OnOk (Between freq_min freq_max) FreqInRange
            (parse_double_value strtod v freq_min freq_max) (λ n. ok (some n))
            (parse_double_value-Between v freq_min freq_max) (λ n h. h))

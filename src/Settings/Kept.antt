-- ===== src/Settings/Kept.antt =====
-- config.c: a setting, whatever its value is, leaves a configuration in its ranges.
use loraham_kiss_tnc.Base.{
  ℕ, ◌+◌, ◌-◌, ◌∷◌, ◌++◌, length-append, decimal, ◌≤◌, ◌<◌, false, ◌||◌, Option, none, some, leb,
  if_intro, Bytes, length, take, codes, cut, is_empty, same_text, Number, read_long, err_format,
  Code, Result, ok, fail, OnOk, OnOk-intro, arith,
}
use loraham_kiss_tnc.Bridge.Shared.{Config}
use loraham_kiss_tnc.Settings.Bind.{
  bind_apply, host_max, path_max, listen_host, masked, parse_prefix, octet, spec_text, prefix_of,
  with_network,
}
use loraham_kiss_tnc.Settings.File.{
  Key, kiss_host, bind, data_socket, conf_socket, kiss_port, rf_log, rf_log_path, rx_only, verbose,
  stats_interval, tx_settle_ms, tx_return_ms, tx_busy_timeout_ms, tx_queue_len, tx_packet_ttl_ms,
  rx_freq, tx_freq, sf, bw, cr, crc, preamble, syncword, ldro, power, store_value, store_text,
  bw_min, bw_max, set_value,
}
use loraham_kiss_tnc.Settings.Values.{
  parse_long_value, parse_bool_value, parse_double_value, parse_optional_freq, copy_string,
}
use loraham_kiss_tnc.Settings.Ranges.{
  Between, FreqInRange, InRange, parse_long_value-Between, length-take, parse_double_value-Between,
  parse_optional_freq-FreqInRange,
}

-- A configuration with what a call made of it.
abbrev pub Kept : Config × Result (Unit {0}) → Type 0
Kept x = InRange x.0

module _ {ℓ κ} {A : Type ℓ} (P : A → Type κ) where
  pub store_value-Kept :
      (cfg : Config) (put : A → Config) (r : Result A)
      → InRange cfg
      → OnOk P r
      → ((a : A) → P a → InRange (put a))
      → Kept (store_value cfg put r)
  store_value-Kept cfg put (ok a) v h k = k a h
  store_value-Kept cfg put (fail e) v h k = v

pub store_text-Kept :
    (size : ℕ) (put : Bytes → Config) (v : Bytes)
    → 0 < size
    → ((t : Bytes) → length t < size → InRange (put t))
    → Kept (store_text put (copy_string size v))
unfolding copy_string
store_text-Kept size put v h k = k (take (size - 1) v) (omega (arith, length-take (size - 1) v))

prefix_of-le : (behind : Bytes) (n : Number) → OnOk (λ p. p ≤ 32) (prefix_of behind n)
prefix_of-le behind n = ground arith

pub parse_prefix-le : (o : Option Bytes) → OnOk (λ p. p ≤ 32) (parse_prefix o)
unfolding parse_prefix
parse_prefix-le none = omega arith
parse_prefix-le (some behind) = prefix_of-le behind (read_long 10 behind)

pub listen_host-lt : (net prefix : ℕ) → length (listen_host net prefix) < host_max
listen_host-lt net prefix = ground arith

decimal-le : (n : ℕ) → length (decimal n) ≤ 3
decimal-le n = ground arith

joined-le :
    (x : ℕ) (s t : Bytes) (n : ℕ) → length s ≤ n → length t ≤ 3 → length (s ++ x ∷ t) ≤ n + 4
joined-le x s t n h k = omega (arith, length-append s (x ∷ t), h, k)

-- The text of a network: five numbers of three digits at most, and what stands between them.
pub spec_text-lt : (net prefix : ℕ) → length (spec_text net prefix) < host_max
spec_text-lt net prefix =
    let part = λ (k : ℕ). decimal-le (octet net k) in
    let whole : length (spec_text net prefix) ≤ 19 =
      joined-le b'/' _ _ 15
        (joined-le b'.' _ _ 11
          (joined-le b'.' _ _ 7 (joined-le b'.' _ _ 3 (part 3) (part 2)) (part 1)) (part 0))
        (decimal-le prefix) in
    omega (arith, whole)

with_network-InRange :
    (cfg : Config) (net prefix : ℕ)
    → InRange cfg
    → prefix ≤ 32
    → InRange (with_network cfg net prefix)
with_network-InRange cfg net prefix v h =
    let short = listen_host-lt net prefix in let spec = spec_text-lt net prefix in ground arith

module _ (inet_pton : Bytes → Option ℕ) (strtod : Bytes → Option (ℕ × Bytes)) where
  -- A call that sets no network, or one with a prefix of at most 32.
  pub bind_apply_intro :
      (P : Config × Result (Unit {0}) → Type 0) (cfg : Config) (arg : Bytes)
      → ((e : Code) → P (cfg, fail e))
      → ((net prefix : ℕ) → prefix ≤ 32 → P (with_network cfg net prefix, ok tt))
      → P (bind_apply inet_pton cfg arg)
  unfolding bind_apply
  bind_apply_intro P cfg arg refused accepted =
      if_intro P (is_empty arg || leb host_max (length arg)) (λ _. refused err_format)
        (λ _.
          elim (parse_prefix (cut b'/' arg).1)
              as (λ r.
                OnOk (λ p. p ≤ 32) r
                → P (elim r as (λ _. Config × Result (Unit {0})) [
                  | fail e ↦ (cfg, fail e)
                  | ok prefix ↦
                      elim (inet_pton (cut b'/' arg).0) as (λ _. Config × Result (Unit {0})) [
                        | none ↦ (cfg, fail err_format)
                        | some ip ↦ (with_network cfg (masked prefix ip) prefix, ok tt)
                      ]
                ])) [
                  | fail e ↦ λ _. refused e
                  | ok prefix ↦ λ h.
                      elim (inet_pton (cut b'/' arg).0)
                        as (λ o. P (elim o as (λ _. Config × Result (Unit {0})) [
                          | none ↦ (cfg, fail err_format)
                          | some ip ↦ (with_network cfg (masked prefix ip) prefix, ok tt)
                        ])) [
                          | none ↦ refused err_format
                          | some ip ↦ accepted (masked prefix ip) prefix h
                        ]
                ]
            (parse_prefix-le (cut b'/' arg).1))

  pub bind_apply-Kept :
      (cfg : Config) (arg : Bytes) → InRange cfg → Kept (bind_apply inet_pton cfg arg)
  bind_apply-Kept cfg arg v =
      bind_apply_intro Kept cfg arg (λ e. v)
        (λ net prefix h. with_network-InRange cfg net prefix v h)

  pub set_value-Kept :
      (cfg : Config) (k : Key) (v : Bytes) → InRange cfg → Kept (set_value inet_pton strtod cfg k v)
  unfolding set_value
  set_value-Kept cfg kiss_host v i =
      store_text-Kept host_max (λ t. record cfg { kiss_host = t }) v (omega arith)
        (λ t h. ground arith)
  set_value-Kept cfg bind v i = bind_apply-Kept cfg v i
  set_value-Kept cfg data_socket v i =
      store_text-Kept path_max (λ t. record cfg { data_socket = t }) v (omega arith)
        (λ t h. ground arith)
  set_value-Kept cfg conf_socket v i =
      store_text-Kept path_max (λ t. record cfg { conf_socket = t }) v (omega arith)
        (λ t h. ground arith)
  set_value-Kept cfg kiss_port v i =
      store_value-Kept (Between 1 65535) cfg (λ n. record cfg { kiss_port = n })
        (parse_long_value v 1 65535) i (parse_long_value-Between v 1 65535) (λ n h. ground arith)
  set_value-Kept cfg rf_log v i =
      store_value-Kept (λ _. Unit {0}) cfg (λ b. record cfg { rf_log = b }) (parse_bool_value v) i
        (OnOk-intro (λ _. Unit {0}) (parse_bool_value v) (λ _ _. tt)) (λ b h. ground arith)
  set_value-Kept cfg rf_log_path v i =
      store_text-Kept path_max (λ t. record cfg { rf_log_path = t }) v (omega arith)
        (λ t h. ground arith)
  set_value-Kept cfg rx_only v i =
      store_value-Kept (λ _. Unit {0}) cfg (λ b. record cfg { rx_only = b }) (parse_bool_value v) i
        (OnOk-intro (λ _. Unit {0}) (parse_bool_value v) (λ _ _. tt)) (λ b h. ground arith)
  set_value-Kept cfg verbose v i =
      store_value-Kept (λ _. Unit {0}) cfg (λ b. record cfg { verbose = b }) (parse_bool_value v) i
        (OnOk-intro (λ _. Unit {0}) (parse_bool_value v) (λ _ _. tt)) (λ b h. ground arith)
  set_value-Kept cfg stats_interval v i =
      store_value-Kept (Between 0 86400) cfg (λ n. record cfg { stats_interval = n })
        (parse_long_value v 0 86400) i (parse_long_value-Between v 0 86400) (λ n h. ground arith)
  set_value-Kept cfg tx_settle_ms v i =
      store_value-Kept (Between 0 60000) cfg (λ n. record cfg { tx_settle_ms = n })
        (parse_long_value v 0 60000) i (parse_long_value-Between v 0 60000) (λ n h. ground arith)
  set_value-Kept cfg tx_return_ms v i =
      store_value-Kept (Between 0 60000) cfg (λ n. record cfg { tx_return_ms = n })
        (parse_long_value v 0 60000) i (parse_long_value-Between v 0 60000) (λ n h. ground arith)
  set_value-Kept cfg tx_busy_timeout_ms v i =
      store_value-Kept (Between 0 600000) cfg (λ n. record cfg { tx_busy_timeout_ms = n })
        (parse_long_value v 0 600000) i (parse_long_value-Between v 0 600000) (λ n h. ground arith)
  set_value-Kept cfg tx_queue_len v i =
      store_value-Kept (Between 1 16) cfg (λ n. record cfg { tx_queue_len = n })
        (parse_long_value v 1 16) i (parse_long_value-Between v 1 16) (λ n h. ground arith)
  set_value-Kept cfg tx_packet_ttl_ms v i =
      store_value-Kept (Between 1000 3600000) cfg (λ n. record cfg { tx_packet_ttl_ms = n })
        (parse_long_value v 1000 3600000) i (parse_long_value-Between v 1000 3600000)
        (λ n h. ground arith)
  set_value-Kept cfg rx_freq v i =
      store_value-Kept FreqInRange cfg (λ f. record cfg { rx_freq = f })
        (parse_optional_freq strtod v) i (parse_optional_freq-FreqInRange strtod v)
        (λ f h. ground arith)
  set_value-Kept cfg tx_freq v i =
      store_value-Kept FreqInRange cfg (λ f. record cfg { tx_freq = f })
        (parse_optional_freq strtod v) i (parse_optional_freq-FreqInRange strtod v)
        (λ f h. ground arith)
  set_value-Kept cfg sf v i =
      store_value-Kept (Between 7 12) cfg (λ n. record cfg { sf = n }) (parse_long_value v 7 12) i
        (parse_long_value-Between v 7 12) (λ n h. ground arith)
  set_value-Kept cfg bw v i =
      store_value-Kept (Between bw_min bw_max) cfg (λ n. record cfg { bw = n })
        (parse_double_value strtod v bw_min bw_max) i
        (parse_double_value-Between strtod v bw_min bw_max) (λ n h. ground arith)
  set_value-Kept cfg cr v i =
      store_value-Kept (Between 5 8) cfg (λ n. record cfg { cr = n }) (parse_long_value v 5 8) i
        (parse_long_value-Between v 5 8) (λ n h. ground arith)
  set_value-Kept cfg crc v i =
      store_value-Kept (λ _. Unit {0}) cfg (λ b. record cfg { crc = b }) (parse_bool_value v) i
        (OnOk-intro (λ _. Unit {0}) (parse_bool_value v) (λ _ _. tt)) (λ b h. ground arith)
  set_value-Kept cfg preamble v i =
      store_value-Kept (Between 1 65535) cfg (λ n. record cfg { preamble = n })
        (parse_long_value v 1 65535) i (parse_long_value-Between v 1 65535) (λ n h. ground arith)
  set_value-Kept cfg syncword v i =
      store_value-Kept (Between 0 255) cfg (λ n. record cfg { syncword = n })
        (parse_long_value v 0 255) i (parse_long_value-Between v 0 255) (λ n h. ground arith)
  set_value-Kept cfg ldro v i =
      if_intro Kept (same_text v (codes "AUTO") || same_text v (codes "auto")) (λ _. ground arith)
        (λ _.
          store_value-Kept (λ _. Unit {0}) cfg (λ b. record cfg { ldro = b; ldro_auto = false })
            (parse_bool_value v) i (OnOk-intro (λ _. Unit {0}) (parse_bool_value v) (λ _ _. tt))
            (λ b h. ground arith))
  set_value-Kept cfg power v i =
      store_value-Kept (Between 0 20) cfg (λ n. record cfg { power = n }) (parse_long_value v 0 20)
        i (parse_long_value-Between v 0 20) (λ n h. ground arith)

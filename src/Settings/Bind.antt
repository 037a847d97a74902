-- ===== src/Settings/Bind.antt =====
-- loraham_kiss_tnc.c: the network whose addresses may connect, and the defaults. An address is a
-- number below 2^32 in host order, and a mask with `prefix` leading ones is written as the division
-- and the product that clear the other bits. inet_pton is a parameter.
use loraham_kiss_tnc.Base.{
  ℕ, ◌-◌, ◌*◌, ◌/◌, ◌%◌, ◌^◌, Bool, true, not, ◌&&◌, ◌||◌, ◌∷◌, ◌++◌, Option, none, some, ltb, leb,
  ◌==◌, if◌then◌else◌, Bytes, length, codes, cut, decimal, Number, is_empty, read_long, err_format,
  Result, ok, fail,
}
use loraham_kiss_tnc.Bridge.Shared.{Config, config_zero}
use loraham_kiss_tnc.Settings.Values.{copy_string}

abbrev pub host_max : ℕ
host_max = 64

abbrev pub path_max : ℕ
path_max = 256

-- The bits that the mask of a prefix keeps.
abbrev pub masked : ℕ → ℕ → ℕ
masked prefix addr = addr / 2 ^ (32 - prefix) * 2 ^ (32 - prefix)

unfoldable pub ipv4_in_cidr : ℕ → ℕ → ℕ → Bool
ipv4_in_cidr addr net prefix =
    if prefix == 0
    then true
    else if leb 32 prefix
    then addr == net
    else masked prefix addr == masked prefix net

-- The text behind the slash: a number from 0 to 32, with nothing behind it; strtol that
-- reads nothing leaves all of it.
abbrev pub prefix_of : Bytes → Number → Result ℕ
prefix_of behind n =
    if length n.rest == length behind
      || not (is_empty n.rest)
      || n.negative && not (n.value == 0)
      || ltb 32 n.value
    then fail err_format
    else ok n.value

unfoldable pub parse_prefix : Option Bytes → Result ℕ
unfolding read_long
parse_prefix none = ok 32
parse_prefix (some behind) = prefix_of behind (read_long 10 behind)

abbrev pub octet : ℕ → ℕ → ℕ
octet net k = net / 2 ^ (8 * k) % 256

abbrev pub spec_text : ℕ → ℕ → Bytes
spec_text net prefix =
    decimal (octet net 3)
    ++ b'.' ∷ decimal (octet net 2)
    ++ b'.' ∷ decimal (octet net 1)
    ++ b'.' ∷ decimal (octet net 0)
    ++ b'/' ∷ decimal prefix

abbrev pub loopback : Bytes
loopback = codes "127.0.0.1"

abbrev pub any_host : Bytes
any_host = codes "0.0.0.0"

abbrev pub listen_host : ℕ → ℕ → Bytes
listen_host net prefix = if octet net 3 == 127 && leb 8 prefix then loopback else any_host

abbrev pub with_network : Config → ℕ → ℕ → Config
with_network cfg net prefix = record cfg {
  bind_net = net;
  bind_prefix = prefix;
  bind_spec = spec_text net prefix;
  kiss_host = listen_host net prefix;
}

module _ (inet_pton : Bytes → Option ℕ) where
  unfoldable pub bind_apply : Config → Bytes → Config × Result (Unit {0})
  unfolding parse_prefix
  bind_apply cfg arg =
      if is_empty arg || leb host_max (length arg)
      then (cfg, fail err_format)
      else elim (parse_prefix (cut b'/' arg).1) [
        | fail e ↦ (cfg, fail e)
        | ok prefix ↦ elim (inet_pton (cut b'/' arg).0) [
          | none ↦ (cfg, fail err_format)
          | some ip ↦ (with_network cfg (masked prefix ip) prefix, ok tt)
        ]
      ]

  -- `is_socket path` is what stat says of a path.
  abbrev pub sockpath : (Bytes → Bool) → Bytes → Bytes → Bytes
  sockpath is_socket run tmp = if is_socket run then run else tmp

  unfoldable pub config_defaults : (Bytes → Bool) → Config
  unfolding bind_apply copy_string
  config_defaults is_socket =
      record (bind_apply (record config_zero { kiss_port = 8001 }) loopback).0 {
        data_socket =
            (copy_string path_max (
              sockpath is_socket (codes "/run/loraham/lora433f.sock")
                (codes "/tmp/lora433f.sock"))).0;
        conf_socket =
            (copy_string path_max (
              sockpath is_socket (codes "/run/loraham/loraconf433.sock")
                (codes "/tmp/loraconf433.sock"))).0;
        stats_interval = 900;
        tx_settle_ms = 100;
        tx_return_ms = 1000;
        tx_busy_timeout_ms = 120000;
        tx_queue_len = 8;
        tx_packet_ttl_ms = 180000;
        rx_freq = some 433775000000000;
        tx_freq = some 433900000000000;
        sf = 12;
        bw = 125000000000000;
        cr = 5;
        crc = true;
        preamble = 8;
        syncword = 0x12;
        ldro = true;
        power = 17;
      }

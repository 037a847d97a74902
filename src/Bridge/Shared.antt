-- ===== src/Bridge/Shared.antt =====
-- loraham_kiss_tnc.h: the configuration and the counters. An int field holds a value from 0 on: the
-- parsers of the configuration file and of the command line accept no other. A frequency and the
-- bandwidth, doubles in the source, are numbers in units of 10^-12 of the source's unit, so that a
-- frequency is in millionths of a hertz; `have_rx_freq` and `have_tx_freq` are whether there is one.
-- The counters of the CAD events stand in Bridge/Conf/Cad.
use loraham_kiss_tnc.Base.{ℕ, ◌+◌, ◌%◌, ◌^◌, Bool, false, Bytes, [], Option, none}

pub record Config : Type 0 where
  pub kiss_host : Bytes
  pub kiss_port : ℕ
  pub bind_spec : Bytes
  pub bind_net : ℕ
  pub bind_prefix : ℕ
  pub data_socket : Bytes
  pub conf_socket : Bytes
  pub rx_only : Bool
  pub verbose : Bool
  pub rf_log : Bool
  pub rf_log_path : Bytes
  pub stats_interval : ℕ
  pub tx_settle_ms : ℕ
  pub tx_return_ms : ℕ
  pub tx_busy_timeout_ms : ℕ
  pub tx_queue_len : ℕ
  pub tx_packet_ttl_ms : ℕ
  pub rx_freq : Option ℕ
  pub tx_freq : Option ℕ
  pub sf : ℕ
  pub bw : ℕ
  pub cr : ℕ
  pub crc : Bool
  pub preamble : ℕ
  pub syncword : ℕ
  pub ldro : Bool
  pub ldro_auto : Bool
  pub power : ℕ

-- The memory set to 0.
abbrev pub config_zero : Config
config_zero = record {
  kiss_host = [];
  kiss_port = 0;
  bind_spec = [];
  bind_net = 0;
  bind_prefix = 0;
  data_socket = [];
  conf_socket = [];
  rx_only = false;
  verbose = false;
  rf_log = false;
  rf_log_path = [];
  stats_interval = 0;
  tx_settle_ms = 0;
  tx_return_ms = 0;
  tx_busy_timeout_ms = 0;
  tx_queue_len = 0;
  tx_packet_ttl_ms = 0;
  rx_freq = none;
  tx_freq = none;
  sf = 0;
  bw = 0;
  cr = 0;
  crc = false;
  preamble = 0;
  syncword = 0;
  ldro = false;
  ldro_auto = false;
  power = 0;
}

pub record Stats : Type 0 where
  pub kiss_rx : ℕ
  pub kiss_tx : ℕ
  pub kiss_drop : ℕ
  pub ax25_rx : ℕ
  pub ax25_tx : ℕ
  pub ax25_drop : ℕ
  pub tnc2_rx : ℕ
  pub tnc2_tx : ℕ
  pub tnc2_drop : ℕ
  pub loraham_rx : ℕ
  pub loraham_tx : ℕ
  pub loraham_drop : ℕ
  pub loraham_framed_errors : ℕ
  pub tx_drop_oversize : ℕ
  pub tx_unconfirmed : ℕ
  pub tx_restore_failures : ℕ
  pub socket_reconnects : ℕ
  pub client_disconnects : ℕ

abbrev pub stats_init : Stats
stats_init = record {
  kiss_rx = 0;
  kiss_tx = 0;
  kiss_drop = 0;
  ax25_rx = 0;
  ax25_tx = 0;
  ax25_drop = 0;
  tnc2_rx = 0;
  tnc2_tx = 0;
  tnc2_drop = 0;
  loraham_rx = 0;
  loraham_tx = 0;
  loraham_drop = 0;
  loraham_framed_errors = 0;
  tx_drop_oversize = 0;
  tx_unconfirmed = 0;
  tx_restore_failures = 0;
  socket_reconnects = 0;
  client_disconnects = 0;
}

-- `x++` on a uint64_t.
abbrev pub bump : ℕ → ℕ
bump n = (n + 1) % 2 ^ 64

-- ===== src/Bridge/Radio.antt =====
-- bridge_loraham.c: the daemon's frequency around a transmission. The world outside is a record of
-- functions of what was done before, so that no two of its answers are tied to each other: whether
-- the CONF socket takes the config line for a frequency, whether the DATA socket takes a packet,
-- and whether a sleep runs to its end, which a request to stop cuts short.
pub mod Restore
use loraham_kiss_tnc.Base.{
  ℕ, ◌+◌, ◌-◌, Bool, true, false, List, [], ◌∷◌, Option, none, some, ltb, ◌==◌, if◌then◌else◌,
  Bytes, Code, err, err_format, err_conf_socket, Result, ok, fail,
}
use loraham_kiss_tnc.Bridge.Conf.{ConfState}
use loraham_kiss_tnc.Bridge.Shared.{Config, Stats, bump}
use loraham_kiss_tnc.Loraham.Framed.{FramedState}

-- What the bridge did to the world, with how it went: a config line for a frequency and whether the
-- socket took it, a sleep and whether it ran to its end, a packet and whether the socket took it,
-- and a line of the RF log, which says whether the transmission is known to have ended well.
pub data Action : Type 0 where
  tuned : ℕ → Bool → Action
  slept : ℕ → Bool → Action
  wrote : Bytes → Bool → Action
  logged : Bool → Bytes → Action

-- What was done, the newest first.
abbrev pub Trace : Type 0
Trace = List Action

pub record Env : Type 0 where
  pub conf_accepts : Trace → ℕ → Bool
  pub sleeps : Trace → ℕ → Bool
  pub data_accepts : Trace → Bytes → Bool

-- What the transmission changes: the counters, the bytes sent to the client, the states of the CONF
-- lines and of the frame decoder, and what was done.
pub record World : Type 0 where
  pub stats : Stats
  pub sent : List Bytes
  pub conf : ConfState
  pub frames : FramedState
  pub trace : Trace

-- 0.000001 MHz.
abbrev pub tolerance : ℕ
tolerance = 1000000

abbrev pub restore_retry_delay_ms : ℕ
restore_retry_delay_ms = 100

-- The frequencies differ by more than the tolerance; with one of them unknown, yes.
unfoldable pub tx_shift_needed : Config → Bool
tx_shift_needed cfg = elim cfg.tx_freq [
  | none ↦ true
  | some tx ↦ elim cfg.rx_freq [
    | none ↦ true
    | some rx ↦ ltb tolerance (if ltb tx rx then rx - tx else tx - rx)
  ]
]

module _ (env : Env) where
  unfoldable pub sleep_ms : World → ℕ → World × Bool
  sleep_ms w ms =
      if ms == 0
      then (w, true)
      else (record w { trace = slept ms (env.sleeps w.trace ms) ∷ w.trace }, env.sleeps w.trace ms)

  -- `conf_open` is `conf_fd >= 0`.
  unfoldable pub send_config_freq : Bool → World → ℕ → World × Result (Unit {0})
  send_config_freq conf_open w freq =
      if freq == 0
      then (w, fail err_format)
      else if conf_open
      then (
        record w { trace = tuned freq (env.conf_accepts w.trace freq) ∷ w.trace },
        if env.conf_accepts w.trace freq then ok tt else fail err_conf_socket,
      )
      else (w, fail err_conf_socket)

  abbrev pub count_restore_failure : World → World
  count_restore_failure w = record w {
    stats = record w.stats { tx_restore_failures = bump w.stats.tx_restore_failures };
  }

  -- The second and last attempt.
  abbrev pub restore_retry : Bool → World → ℕ → World × Result (Unit {0})
  restore_retry conf_open w rx =
      let (w', r) = send_config_freq conf_open w rx in
      elim r [ ok u ↦ (w', ok u) | fail e ↦ (count_restore_failure w', fail e) ]

  -- The first attempt failed with `e`.
  abbrev pub restore_failed : Bool → World → ℕ → Code → World × Result (Unit {0})
  restore_failed conf_open w rx e =
      let (w', slept_well) = sleep_ms (count_restore_failure w) restore_retry_delay_ms in
      if slept_well then restore_retry conf_open w' rx else (w', fail e)

  abbrev pub restore_first : Bool → World → ℕ → World × Result (Unit {0})
  restore_first conf_open w rx =
      let (w', r) = send_config_freq conf_open w rx in
      elim r [ ok u ↦ (w', ok u) | fail e ↦ restore_failed conf_open w' rx e ]

  unfoldable pub restore_rx_freq : Config → Bool → World → World × Result (Unit {0})
  unfolding tx_shift_needed send_config_freq sleep_ms
  restore_rx_freq cfg conf_open w = elim cfg.rx_freq [
    | none ↦ (w, fail err_format)
    | some rx ↦ if tx_shift_needed cfg then restore_first conf_open w rx else (w, ok tt)
  ]

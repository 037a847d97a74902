-- ===== src/Bridge/Transmit/Actions.antt =====
-- bridge_loraham.c: what a transmission adds to the actions, apart from its one write.
use loraham_kiss_tnc.Base.{
  ℕ, ◌≡◌, Bool, true, false, ◌∷◌, Option, none, some, ◌==◌, if_intro, if◌then◌else◌, Bytes, Code,
  Result, ok, fail, subst, sym, ◌+◌, err_format, err_unsupported, OnSome, and_then-OnSome_all,
  and_then, arith,
}
use loraham_kiss_tnc.Bridge.Conf.{ConfState, txresult_on}
use loraham_kiss_tnc.Bridge.Egress.{Client}
use loraham_kiss_tnc.Bridge.Radio.{
  tuned, slept, logged, Trace, Env, World, tx_shift_needed, sleep_ms, send_config_freq,
  count_restore_failure, restore_retry, restore_failed, restore_first, restore_rx_freq,
}
use loraham_kiss_tnc.Bridge.Shared.{Config}
use loraham_kiss_tnc.Bridge.Transmit.{
  Watch, count_result, confirmed_end, fallback_end, after_write, start_waiting, waited, rflog_tx,
  count_unconfirmed,
}
use loraham_kiss_tnc.Bridge.Wait.{Waiting, wait_tx_result, wait_tx_complete}
use loraham_kiss_tnc.Loraham.Framed.{TxResult}

-- A property of the actions that a sleep or a line of the log does not change.
pub record Stable (Q : Trace → Type 0) : Type 0 where
  pub on_slept : (ms : ℕ) (b : Bool) (t : Trace) → Q t → Q (slept ms b ∷ t)
  pub on_logged : (b : Bool) (packet : Bytes) (t : Trace) → Q t → Q (logged b packet ∷ t)

pub sleep_ms-keeps :
    (Q : Trace → Type 0)
    → Stable Q
    → (env : Env) (w : World) (ms : ℕ) → Q w.trace
    → Q (sleep_ms env w ms).0.trace
unfolding sleep_ms
sleep_ms-keeps Q stable env w ms h =
    ground (arith, stable.on_slept ms (env.sleeps w.trace ms) w.trace h)

-- A property that a config line for one frequency, `rx`, does not change either.
module _ (Q : Trace → Type 0) (stable : Stable Q) (env : Env) (conf_open : Bool) (rx : ℕ)
    (on_tuned : (b : Bool) (t : Trace) → Q t → Q (tuned rx b ∷ t)) where
  pub send_config_freq-keeps :
      (w : World) → Q w.trace → Q (send_config_freq env conf_open w rx).0.trace
  unfolding send_config_freq
  send_config_freq-keeps w h = ground (arith, on_tuned (env.conf_accepts w.trace rx) w.trace h)

  restore_retry-keeps : (w : World) → Q w.trace → Q (restore_retry env conf_open w rx).0.trace
  restore_retry-keeps w h = ground (arith, send_config_freq-keeps w h)

  restore_failed-keeps :
      (w : World) (e : Code) → Q w.trace → Q (restore_failed env conf_open w rx e).0.trace
  restore_failed-keeps w e h =
      let k = sleep_ms-keeps Q stable env (count_restore_failure env w) 100 h in
      ground (arith, k, restore_retry-keeps (sleep_ms env (count_restore_failure env w) 100).0 k)

  -- What follows the first attempt.
  pub restore_first-keeps :
      (w : World)
      → Q (send_config_freq env conf_open w rx).0.trace
      → Q (restore_first env conf_open w rx).0.trace
  restore_first-keeps w k =
      let (w', r) = send_config_freq env conf_open w rx in
      elim r
        as (λ r.
          Q
            (elim r as (λ _. World × Result (Unit {0})) [
              | ok u ↦ (w', ok u)
              | fail e ↦ restore_failed env conf_open w' rx e
            ]).0.trace) [ ok u ↦ k | fail e ↦ restore_failed-keeps w' e k ]

-- A restore is nothing, or what starts with its first attempt.
pub restore_rx_freq_intro :
    (P : World × Result (Unit {0}) → Type 0) (env : Env) (cfg : Config) (conf_open : Bool)
    (w : World) (rx : ℕ)
    → cfg.rx_freq ≡ some rx
    → (tx_shift_needed cfg ≡ true → P (restore_first env conf_open w rx))
    → (tx_shift_needed cfg ≡ false → P (w, ok tt))
    → P (restore_rx_freq env cfg conf_open w)
unfolding restore_rx_freq
restore_rx_freq_intro P env cfg conf_open w rx e h k =
    subst
      (λ o. P (elim o as (λ _. World × Result (Unit {0})) [
        | none ↦ (w, fail err_format)
        | some rx' ↦ if tx_shift_needed cfg then restore_first env conf_open w rx' else (w, ok tt)
      ]))
      (sym e) (if_intro P (tx_shift_needed cfg) h k)

-- A property of a result and the actions that goes from a success to any other result, and from any result
-- to a failure.
pub record Settles (R : Result (Unit {0}) → Trace → Type 0) : Type 0 where
  pub from_ok : (r : Result (Unit {0})) (t : Trace) → R (ok tt) t → R r t
  pub to_fail : (r : Result (Unit {0})) (e : Code) (t : Trace) → R r t → R (fail e) t

abbrev pub AtEnd : (Result (Unit {0}) → Trace → Type 0) → World × Result (Unit {0}) → Type 0
AtEnd R x = R x.1 x.0.trace

-- `Q` holds on the way, and `R` once it was tried to restore the receive frequency.
module _ (Q : Trace → Type 0) (R : Result (Unit {0}) → Trace → Type 0) (stable : Stable Q)
    (settles : Settles R) (env : Env) (cfg : Config) (conf_open : Bool) (packet : Bytes)
    (back : (w : World) → Q w.trace → AtEnd R (restore_rx_freq env cfg conf_open w)) where
  count_result-keeps :
      (result : Result (Unit {0})) (b : Bool) (x : World × Result (Unit {0}))
      → AtEnd R x
      → AtEnd R (count_result env cfg conf_open packet result b x)
  count_result-keeps result b (w, fail e) h = h
  count_result-keeps result true (w, ok u) h = settles.from_ok result w.trace h
  count_result-keeps result false (w, ok u) h = settles.from_ok result w.trace h

  confirmed_end-keeps :
      (w : World) (r : Waiting × Result TxResult)
      → Q w.trace
      → AtEnd R (confirmed_end env cfg conf_open packet w r)
  unfolding confirmed_end
  confirmed_end-keeps w (x, fail e) h = settles.to_fail _ _ _ (
      back (rflog_tx false packet (count_unconfirmed (waited w x)))
        (stable.on_logged false packet w.trace h))
  confirmed_end-keeps w (x, ok result) h =
      elim (result.status == 0)
        as (λ k. AtEnd R (elim k as (λ _. World × Result (Unit {0})) [
          | true ↦
              count_result env cfg conf_open packet x.client_error true
                (restore_rx_freq env cfg conf_open (rflog_tx true packet (waited w x)))
          | false ↦
              count_result env cfg conf_open packet x.client_error false
                (restore_rx_freq env cfg conf_open (waited w x))
        ])) [
          | true ↦
              count_result-keeps x.client_error true _
                (back _ (stable.on_logged true packet w.trace h))
          | false ↦ count_result-keeps x.client_error false _ (back (waited w x) h)
        ]

  fallback_end-keeps :
      (w : World) (r : ConfState × Result (Unit {0}))
      → Q w.trace
      → AtEnd R (fallback_end env cfg conf_open packet w r)
  unfolding fallback_end
  fallback_end-keeps w (conf, ok u) h =
      count_result-keeps (ok tt) true _ (back _ (stable.on_logged true packet w.trace h))
  fallback_end-keeps w (conf, fail e) h = count_result-keeps (ok tt) true _ (
      back _ (
        stable.on_logged false packet _ (
          sleep_ms-keeps Q stable env (count_unconfirmed (record w { conf = conf }))
            cfg.tx_return_ms h)))

  pub after_write-keeps :
      (fuel : ℕ) (client : Client) (watch : Watch) (w : World)
      → Q w.trace
      → OnSome (AtEnd R) (after_write env cfg conf_open packet fuel client watch w)
  unfolding after_write
  after_write-keeps fuel client watch w h =
      elim (txresult_on w.conf)
        as (λ k. OnSome (AtEnd R) (elim k as (λ _. Option (World × Result (Unit {0}))) [
          | true ↦
              and_then
                (wait_tx_result fuel (watch.start + cfg.tx_busy_timeout_ms) (start_waiting client w)
                  watch.rounds)
                (λ r. some (confirmed_end env cfg conf_open packet w r))
          | false ↦
              and_then
                (if conf_open
                  then wait_tx_complete cfg w.conf watch.start watch.later watch.conf_rounds
                  else some (w.conf, fail err_unsupported))
                (λ r. some (fallback_end env cfg conf_open packet w r))
        ])) [
          | true ↦
              and_then-OnSome_all (AtEnd R)
                (wait_tx_result fuel (watch.start + cfg.tx_busy_timeout_ms) (start_waiting client w)
                  watch.rounds)
                (λ r. some (confirmed_end env cfg conf_open packet w r))
                (λ r. confirmed_end-keeps w r h)
          | false ↦
              and_then-OnSome_all (AtEnd R)
                (if conf_open
                  then wait_tx_complete cfg w.conf watch.start watch.later watch.conf_rounds
                  else some (w.conf, fail err_unsupported))
                (λ r. some (fallback_end env cfg conf_open packet w r))
                (λ r. fallback_end-keeps w r h)
        ]

-- ===== src/Bridge/Radio/Restore.antt =====
-- bridge_loraham.c: where the radio stands after an attempt to restore the receive frequency.
use loraham_kiss_tnc.Base.{
  ℕ, ◌≡◌, ◌≢◌, refl, Bool, true, false, [], ◌∷◌, Option, none, some, if_intro, arith, ok, fail,
  Result, Code, if◌then◌else◌, subst, sym, err_format, err_conf_socket,
}
use loraham_kiss_tnc.Bridge.Radio.{
  tuned, slept, wrote, logged, Trace, Env, World, tx_shift_needed, sleep_ms, send_config_freq,
  count_restore_failure, restore_retry, restore_failed, restore_first, restore_rx_freq,
}
use loraham_kiss_tnc.Bridge.Shared.{Config}

-- The frequency of the newest config line that the daemon's socket took; `none` before the first.
abbrev pub radio_freq : Trace → Option ℕ
radio_freq [] = none
radio_freq (tuned freq true ∷ t) = some freq
radio_freq (tuned freq false ∷ t) = radio_freq t
radio_freq (slept ms b ∷ t) = radio_freq t
radio_freq (wrote packet b ∷ t) = radio_freq t
radio_freq (logged b packet ∷ t) = radio_freq t

-- A successful call leaves the radio on the receive frequency, and a failed one is counted and
-- leaves the radio where it was.
abbrev pub Restored : ℕ → World → World × Result (Unit {0}) → Type 0
Restored rx w (w', ok u) = radio_freq w'.trace ≡ some rx
Restored rx w (w', fail e) =
    (radio_freq w'.trace ≡ radio_freq w.trace)
    × (w'.stats.tx_restore_failures ≢ w.stats.tx_restore_failures)

module _ (env : Env) (conf_open : Bool) (rx : ℕ) where
  restore_retry-Restored :
      (w w0 : World)
      → radio_freq w.trace ≡ radio_freq w0.trace
      → w.stats.tx_restore_failures ≡ (count_restore_failure env w0).stats.tx_restore_failures
      → Restored rx w0 (restore_retry env conf_open w rx)
  unfolding send_config_freq
  restore_retry-Restored w w0 h k = ground arith

  restore_failed-Restored :
      (w : World) (e : Code) → Restored rx w (restore_failed env conf_open w rx e)
  unfolding sleep_ms
  restore_failed-Restored w e =
      let w1 : World = record (count_restore_failure env w) {
        trace = slept 100 (env.sleeps w.trace 100) ∷ w.trace;
      } in
      ground (arith, restore_retry-Restored w1 w refl refl)

  pub restore_first-Restored : (w : World) → Restored rx w (restore_first env conf_open w rx)
  unfolding send_config_freq
  restore_first-Restored w =
      let w1 : World = record w { trace = tuned rx false ∷ w.trace } in
      ground (
        arith,
        restore_failed-Restored w1 err_conf_socket,
        restore_failed-Restored w err_conf_socket,
        restore_failed-Restored w err_format,
      )

-- With a known receive frequency, and the two frequencies apart, a call that succeeds leaves the radio
-- on the receive frequency, and one that fails is counted and leaves the radio where it was.
pub restore_rx_freq-Restored :
    (env : Env) (cfg : Config) (conf_open : Bool) (w : World) (rx : ℕ)
    → cfg.rx_freq ≡ some rx
    → tx_shift_needed cfg ≡ true
    → Restored rx w (restore_rx_freq env cfg conf_open w)
unfolding restore_rx_freq
restore_rx_freq-Restored env cfg conf_open w rx h k =
    subst
      (λ o. Restored rx w (elim o as (λ _. World × Result (Unit {0})) [
        | none ↦ (w, fail err_format)
        | some rx' ↦ if tx_shift_needed cfg then restore_first env conf_open w rx' else (w, ok tt)
      ]))
      (sym h)
      (if_intro (Restored rx w) (tx_shift_needed cfg)
        (λ _. restore_first-Restored env conf_open rx w) (λ off. absurd cc))

-- ===== src/Bridge/Transmit/Return.antt =====
-- bridge_loraham.c: the way back to the receive frequency.
use loraham_kiss_tnc.Base.{
  ℕ, ◌<◌, ◌≡◌, refl, Bool, true, false, List, ◌∷◌, Option, some, Bytes, Result, ok, fail, err,
  arith, ◌⊎◌, inl, inr,
}
use loraham_kiss_tnc.Bridge.Radio.{
  tuned, Trace, Env, World, tx_shift_needed, send_config_freq, restore_first, restore_rx_freq,
}
use loraham_kiss_tnc.Bridge.Radio.Restore.{radio_freq, Restored, restore_first-Restored}
use loraham_kiss_tnc.Bridge.Shared.{Config}
use loraham_kiss_tnc.Bridge.Transmit.Actions.{
  Stable, Settles, AtEnd, restore_first-keeps, restore_rx_freq_intro,
}
use loraham_kiss_tnc.Bridge.Transmit.Airtime.{WellSent, Returned, written}

module _ (env : Env) (cfg : Config) (conf_open : Bool) (rx : ℕ) (known : cfg.rx_freq ≡ some rx)
    (above : 0 < rx) (start : Option ℕ) where
  -- The radio can be brought back, or never left.
  abbrev CanReturn : Trace → Type 0
  CanReturn t =
      ((tx_shift_needed cfg ≡ true) × (conf_open ≡ true))
      ⊎ ((tx_shift_needed cfg ≡ false) × (radio_freq t ≡ start))

  -- Before the call.
  abbrev pub AtStart : List Bytes → Trace → Type 0
  AtStart xs t = WellSent cfg t × (radio_freq t ≡ start) × (written t ≡ xs)

  abbrev pub OnTheWay : List Bytes → Trace → Type 0
  OnTheWay xs t = WellSent cfg t × CanReturn t × (written t ≡ xs)

  -- Behind the attempt to return.
  abbrev pub Back : List Bytes → Result (Unit {0}) → Trace → Type 0
  Back xs r t = WellSent cfg t × Returned cfg rx start r t × (written t ≡ xs)

  -- The same, whatever the attempt came to.
  abbrev pub Tried : List Bytes → Trace → Type 0
  Tried xs = Back xs (fail err)

  pub OnTheWay-Stable : (xs : List Bytes) → Stable (OnTheWay xs)
  OnTheWay-Stable xs = record { on_slept = λ ms b t h. h; on_logged = λ b p t h. h }

  Tried-Stable : (xs : List Bytes) → Stable (Tried xs)
  Tried-Stable xs = record { on_slept = λ ms b t h. h; on_logged = λ b p t h. h }

  Tried-tuned : (xs : List Bytes) (b : Bool) (t : Trace) → Tried xs t → Tried xs (tuned rx b ∷ t)
  Tried-tuned xs true t h = (h.0, inl (inl refl), h.2)
  Tried-tuned xs false t h = (h.0, inr refl, h.2)

  pub Back-Tried : (xs : List Bytes) (r : Result (Unit {0})) (t : Trace) → Back xs r t → Tried xs t
  Back-Tried xs (ok u) t h = (h.0, inl h.1, h.2)
  Back-Tried xs (fail e) t h = h

  pub Back-Settles : (xs : List Bytes) → Settles (Back xs)
  Back-Settles xs = record {
    from_ok = λ r t h. elim r as (λ r. Back xs r t) [ ok u ↦ h | fail e ↦ (h.0, inl h.1, h.2) ];
    to_fail = λ r e t h. Back-Tried xs r t h;
  }

  -- The first attempt to return.
  return_home :
      (xs : List Bytes) (w : World)
      → tx_shift_needed cfg ≡ true
      → OnTheWay xs w.trace
      → Tried xs (send_config_freq env conf_open w rx).0.trace
  unfolding send_config_freq
  return_home xs w shift h = ground (arith, above)

  -- A success is one by the radio's frequency.
  settle_result :
      (xs : List Bytes) (w : World) (x : World × Result (Unit {0}))
      → Tried xs x.0.trace
      → Restored rx w x
      → AtEnd (Back xs) x
  settle_result xs w (w', ok u) h k = (h.0, inl k, h.2)
  settle_result xs w (w', fail e) h k = h

  pub restore-Back :
      (xs : List Bytes) (w : World)
      → OnTheWay xs w.trace
      → AtEnd (Back xs) (restore_rx_freq env cfg conf_open w)
  restore-Back xs w h =
      restore_rx_freq_intro (AtEnd (Back xs)) env cfg conf_open w rx known
        (λ shift.
          settle_result xs w (restore_first env conf_open w rx)
            (restore_first-keeps (Tried xs) (Tried-Stable xs) env conf_open rx (Tried-tuned xs) w
              (return_home xs w shift h))
            (restore_first-Restored env conf_open rx w))
        (λ same. ground arith)

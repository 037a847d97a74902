-- ===== src/Bridge/Transmit/Packet.antt =====
-- bridge_loraham.c: bridge_loraham_send_packet_with_client, on every path.
use loraham_kiss_tnc.Base.{
  ℕ, ◌<◌, ◌≡◌, refl, ap, subst, sym, Bool-cases, Bool, true, false, List, ◌∷◌, Option, none, some,
  ◌==◌, if_intro, Bytes, Code, length, not, Result, ok, fail, err, err_format, err_tx_socket,
  OnSome, and_then-OnSome, and_then, arith, inl, inr,
}
use loraham_kiss_tnc.Bridge.Egress.{Client}
use loraham_kiss_tnc.Bridge.Radio.{
  wrote, Trace, Env, World, tx_shift_needed, sleep_ms, send_config_freq, restore_rx_freq,
}
use loraham_kiss_tnc.Bridge.Radio.Restore.{radio_freq}
use loraham_kiss_tnc.Bridge.Shared.{Config}
use loraham_kiss_tnc.Bridge.Transmit.{
  Fds, Watch, Sending, unsent, sent_with, stopped, count_drop, after_write, write_packet,
  shift_and_write, send_packet,
}
use loraham_kiss_tnc.Bridge.Transmit.Actions.{AtEnd, sleep_ms-keeps, after_write-keeps}
use loraham_kiss_tnc.Bridge.Transmit.Airtime.{WellSent, written, Sound}
use loraham_kiss_tnc.Bridge.Transmit.Return.{
  AtStart, OnTheWay, Back, OnTheWay-Stable, Back-Tried, Back-Settles, restore-Back,
}

module _ (env : Env) (cfg : Config) (conf_open : Bool) (packet : Bytes) (rx : ℕ)
    (known : cfg.rx_freq ≡ some rx) (above : 0 < rx) (before : Trace) where
  abbrev start_freq : Option ℕ
  start_freq = radio_freq before

  abbrev Way : List Bytes → Trace → Type 0
  Way = OnTheWay env cfg conf_open rx known above start_freq

  abbrev Home : List Bytes → Result (Unit {0}) → Trace → Type 0
  Home = Back env cfg conf_open rx known above start_freq

  abbrev Good : Sending → Type 0
  Good = Sound cfg rx packet before

  -- Not sent, with the radio where it was.
  never_left-Good :
      (w : World) (e : Code)
      → AtStart env cfg conf_open rx known above start_freq (written before) w.trace
      → Good (unsent w e)
  never_left-Good w e h = record {
    on_frequency = h.0;
    radio = inr h.1;
    once = h.2;
    told = λ x. absurd cc;
  }

  -- Not sent, with the radio asked to return.
  unsent-Good :
      (r : Result (Unit {0})) (w : World) (e : Code)
      → Home (written before) r w.trace
      → Good (unsent w e)
  unsent-Good r w e h =
      let tried =
        Back-Tried env cfg conf_open rx known above start_freq (written before) r w.trace h in
      record { on_frequency = tried.0; radio = inl tried.1; once = tried.2; told = λ x. absurd cc }

  stopped-Good :
      (x : World × Result (Unit {0}))
      → AtEnd (Home (written before)) x
      → Good (stopped env cfg conf_open packet x)
  stopped-Good (w, ok u) h = unsent-Good (ok u) w err h
  stopped-Good (w, fail e) h = unsent-Good (fail e) w e h

  sent_with-Good :
      (x : World × Result (Unit {0}))
      → AtEnd (Home (packet ∷ written before)) x
      → Good (sent_with x)
  sent_with-Good (w, r) h = record { on_frequency = h.0; radio = h.1; once = h.2; told = λ _. refl }

  write_packet-Good :
      (fuel : ℕ) (client : Client) (watch : Watch) (w : World)
      → Way (written before) w.trace
      → (tx_shift_needed cfg ≡ true → radio_freq w.trace ≡ cfg.tx_freq)
      → OnSome Good (write_packet env cfg conf_open packet fuel client watch w)
  unfolding write_packet
  write_packet-Good fuel client watch w h on_tx =
      elim (env.data_accepts w.trace packet)
        as (λ b.
          let w' : World = record w { trace = wrote packet b ∷ w.trace } in
          OnSome Good (elim b as (λ _. Option Sending) [
            | true ↦
                and_then (after_write env cfg conf_open packet fuel client watch w')
                  (λ r. some (sent_with r))
            | false ↦ some (
                unsent
                  (restore_rx_freq env cfg conf_open
                    (sleep_ms env (count_drop w') cfg.tx_return_ms).0).0
                  err_tx_socket)
          ])) [
            | true ↦
                let w' : World = record w { trace = wrote packet true ∷ w.trace } in
                let xs = packet ∷ written before in
                and_then-OnSome (AtEnd (Home xs)) Good
                  (after_write env cfg conf_open packet fuel client watch w')
                  (λ r. some (sent_with r))
                  (after_write-keeps (Way xs) (Home xs)
                    (OnTheWay-Stable env cfg conf_open rx known above start_freq xs)
                    (Back-Settles env cfg conf_open rx known above start_freq xs) env cfg conf_open
                    packet (restore-Back env cfg conf_open rx known above start_freq xs) fuel client
                    watch w' ((on_tx, h.0), h.1, ap (λ xs. packet ∷ xs) h.2))
                  sent_with-Good
            | false ↦
                let w' : World = count_drop (record w { trace = wrote packet false ∷ w.trace }) in
                let xs = written before in
                let slept = (sleep_ms env w' cfg.tx_return_ms).0 in
                unsent-Good (restore_rx_freq env cfg conf_open slept).1
                  (restore_rx_freq env cfg conf_open slept).0 err_tx_socket
                  (restore-Back env cfg conf_open rx known above start_freq xs slept (
                    sleep_ms-keeps (Way xs)
                      (OnTheWay-Stable env cfg conf_open rx known above start_freq xs) env w'
                      cfg.tx_return_ms ((on_tx, h.0), h.1, h.2)))
          ]

  -- On the way, with the radio on the transmit frequency.
  abbrev Shifted : Trace → Type 0
  Shifted t = Way (written before) t × (radio_freq t ≡ cfg.tx_freq)

  abbrev Start : Trace → Type 0
  Start = AtStart env cfg conf_open rx known above start_freq (written before)

  abbrev Tuned : World × Result (Unit {0}) → Type 0
  Tuned (w, ok u) = Shifted w.trace
  Tuned (w, fail e) = Start w.trace

  send_config_freq-Tuned :
      (w : World) (tx : ℕ)
      → Start w.trace
      → tx_shift_needed cfg ≡ true
      → cfg.tx_freq ≡ some tx
      → Tuned (send_config_freq env conf_open w tx)
  unfolding send_config_freq
  send_config_freq-Tuned w tx h shift e = ground (arith, h, shift, e)

  shift_and_write-Good :
      (fuel : ℕ) (client : Client) (watch : Watch) (w : World) (tx : ℕ)
      → Start w.trace
      → tx_shift_needed cfg ≡ true
      → cfg.tx_freq ≡ some tx
      → OnSome Good (shift_and_write env cfg conf_open packet fuel client watch w tx)
  unfolding shift_and_write
  shift_and_write-Good fuel client watch w tx h shift e =
      let w' = (send_config_freq env conf_open w tx).0 in
      let (w'', settled) = sleep_ms env w' cfg.tx_settle_ms in
      elim (send_config_freq env conf_open w tx).1
          as (λ r.
            Tuned (w', r)
            → OnSome Good (elim r as (λ _. Option Sending) [
              | fail e ↦ some (unsent (count_drop w') e)
              | ok u ↦ elim settled as (λ _. Option Sending) [
                | true ↦ write_packet env cfg conf_open packet fuel client watch w''
                | false ↦
                    some (stopped env cfg conf_open packet (restore_rx_freq env cfg conf_open w''))
              ]
            ])) [
              | fail e ↦ λ k. never_left-Good (count_drop w') e k
              | ok u ↦ λ k.
                  let (way, on_tx) =
                    sleep_ms-keeps Shifted
                      (record { on_slept = λ ms b t x. x; on_logged = λ b p t x. x }) env w'
                      cfg.tx_settle_ms k in
                  elim settled
                    as (λ b. OnSome Good (elim b as (λ _. Option Sending) [
                      | true ↦ write_packet env cfg conf_open packet fuel client watch w''
                      | false ↦
                          some (
                            stopped env cfg conf_open packet
                              (restore_rx_freq env cfg conf_open w''))
                    ])) [
                      | true ↦ write_packet-Good fuel client watch w'' way (λ _. on_tx)
                      | false ↦ stopped-Good (restore_rx_freq env cfg conf_open w'') (
                          restore-Back env cfg conf_open rx known above start_freq (written before)
                            w'' way)
                    ]
            ]
        (send_config_freq-Tuned w tx h shift e)

  -- The choice between the two ways.
  abbrev shift_or_write : ℕ → Client → Watch → World → ℕ → Bool → Option Sending
  shift_or_write fuel client watch w tx b = elim b [
    | true ↦ shift_and_write env cfg conf_open packet fuel client watch w tx
    | false ↦ write_packet env cfg conf_open packet fuel client watch w
  ]

  shift_or_write-Good :
      (fuel : ℕ) (client : Client) (watch : Watch) (w : World) (tx : ℕ)
      → Start w.trace
      → cfg.tx_freq ≡ some tx
      → OnSome Good (shift_or_write fuel client watch w tx (tx_shift_needed cfg))
  shift_or_write-Good fuel client watch w tx h e = elim (Bool-cases (tx_shift_needed cfg)) [
    | inl shift ↦
        subst (λ b. OnSome Good (shift_or_write fuel client watch w tx b)) (sym shift)
          (shift_and_write-Good fuel client watch w tx h shift e)
    | inr same ↦
        subst (λ b. OnSome Good (shift_or_write fuel client watch w tx b)) (sym same)
          (write_packet-Good fuel client watch w (h.0, inr (same, h.1), h.2) (λ shift. absurd cc))
  ]

-- From a world in which each packet so far was written on the transmit frequency, and with a known receive
-- frequency above 0, a call that returns, on whatever path, leaves such a world, and the DATA socket
-- took the packet once if the call says that it was written, and no packet if not; a call that
-- succeeds has written it, and leaves the radio on the receive frequency, or where it was if the
-- two frequencies are at most 1 Hz apart. A call that fails does so too, or the newest config line is the one for the
-- receive frequency and the CONF socket refused it, or nothing was written and the radio is where it was.
pub send_packet-Sound :
    (fuel : ℕ) (env : Env) (cfg : Config) (fds : Fds) (watch : Watch) (w : World) (packet : Bytes)
    (rx : ℕ)
    → cfg.rx_freq ≡ some rx
    → 0 < rx
    → WellSent cfg w.trace
    → OnSome (Sound cfg rx packet w.trace) (send_packet fuel env cfg fds watch w packet)
unfolding send_packet
send_packet-Sound fuel env cfg fds watch w packet rx known above good =
    let P = OnSome (Sound cfg rx packet w.trace) in
    let quit : (w' : World) (e : Code) → w'.trace ≡ w.trace → P (some (unsent w' e)) = λ w' e same.
      record {
        on_frequency = rw same good;
        radio = inr (ap radio_freq same);
        once = rw same refl;
        told = λ x. absurd cc;
      } in
    if_intro P (length packet == 0) (λ _. quit w err refl)
      (λ _.
        if_intro P (not fds.data_open) (λ _. quit (count_drop w) err refl)
          (λ _.
            elim cfg.tx_freq
                as (λ tx.
                  cfg.tx_freq ≡ tx
                  → P (elim tx as (λ _. Option Sending) [
                    | none ↦ some (unsent (count_drop w) err_format)
                    | some tx ↦ elim cfg.rx_freq as (λ _. Option Sending) [
                      | none ↦ some (unsent (count_drop w) err_format)
                      | some rx' ↦
                          shift_or_write env cfg fds.conf_open packet rx known above w.trace fuel
                            fds.client watch w tx (tx_shift_needed cfg)
                    ]
                  ])) [
                    | none ↦ λ _. quit (count_drop w) err_format refl
                    | some tx ↦ λ e.
                        elim cfg.rx_freq
                          as (λ o. P (elim o as (λ _. Option Sending) [
                            | none ↦ some (unsent (count_drop w) err_format)
                            | some rx' ↦
                                shift_or_write env cfg fds.conf_open packet rx known above w.trace
                                  fuel fds.client watch w tx (tx_shift_needed cfg)
                          ])) [
                            | none ↦ quit (count_drop w) err_format refl
                            | some rx' ↦
                                shift_or_write-Good env cfg fds.conf_open packet rx known above
                                  w.trace fuel fds.client watch w tx (good, refl, refl) e
                          ]
                  ]
              refl))

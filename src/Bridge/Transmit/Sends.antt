-- ===== src/Bridge/Transmit/Sends.antt =====
-- bridge_loraham.c: a transmission returns.
use loraham_kiss_tnc.Base.{
  ℕ, ◌+◌, ◌≤◌, ◌<◌, ◌≡◌, refl, Bool, true, false, not, ◌∷◌, Option, none, some, ◌==◌, if_intro,
  if◌then◌else◌, and_then, Bytes, length, Result, ok, fail, err_format, err_tx_socket,
  err_unsupported, Ends, and_then-Ends, arith, subst, sym, ◌∙◌,
}
use loraham_kiss_tnc.Bridge.Conf.{txresult_on}
use loraham_kiss_tnc.Bridge.Egress.{Client}
use loraham_kiss_tnc.Bridge.Radio.{
  Env, World, wrote, tx_shift_needed, sleep_ms, send_config_freq, restore_rx_freq,
}
use loraham_kiss_tnc.Bridge.Shared.{Config}
use loraham_kiss_tnc.Bridge.Transmit.{
  Fds, Watch, Sending, unsent, sent_with, stopped, count_drop, start_waiting, confirmed_end,
  fallback_end, after_write, write_packet, shift_and_write, send_packet,
}
use loraham_kiss_tnc.Bridge.Wait.{tx_start_wait_ms, wait_tx_result, wait_tx_complete}
use loraham_kiss_tnc.Bridge.Wait.Deadline.{Reaches, Done, wait_tx_result_total}
use loraham_kiss_tnc.Bridge.Wait.Late.{Late, wait_tx_complete_total}
use loraham_kiss_tnc.Loraham.Framed.{max_payload}
use loraham_kiss_tnc.Loraham.Framed.Stream.{IsValid}

-- Time goes on in both waits, up to a stop or past their deadlines.
pub record TimePasses (cfg : Config) (watch : Watch) : Type 0 where
  pub for_result : Reaches (watch.start + cfg.tx_busy_timeout_ms) watch.rounds
  pub late : ℕ
  pub past_start : watch.start + tx_start_wait_ms ≤ late
  pub past_busy : watch.later + cfg.tx_busy_timeout_ms ≤ late
  pub for_conf : Late late watch.conf_rounds

abbrev pub Any {ℓ} : {A : Type ℓ} → A → Type 0
Any x = Unit {0}

module _ (fuel : ℕ) (enough : max_payload < fuel) (env : Env) (cfg : Config) (watch : Watch)
    (passes : TimePasses cfg watch) where
  module _ (conf_open : Bool) (packet : Bytes) (client : Client) where
    after_write_total :
        (w : World)
        → IsValid w.frames
        → Ends Any (after_write env cfg conf_open packet fuel client watch w)
    unfolding after_write
    after_write_total w v =
        elim (txresult_on w.conf)
          as (λ b. Ends Any (elim b as (λ _. Option (World × Result (Unit {0}))) [
            | true ↦
                and_then
                  (wait_tx_result fuel (watch.start + cfg.tx_busy_timeout_ms)
                    (start_waiting client w) watch.rounds)
                  (λ r. some (confirmed_end env cfg conf_open packet w r))
            | false ↦
                and_then
                  (if conf_open
                    then wait_tx_complete cfg w.conf watch.start watch.later watch.conf_rounds
                    else some (w.conf, fail err_unsupported))
                  (λ r. some (fallback_end env cfg conf_open packet w r))
          ])) [
            | true ↦
                and_then-Ends Done Any
                  (wait_tx_result_total fuel (watch.start + cfg.tx_busy_timeout_ms) enough
                    watch.rounds (start_waiting client w) v passes.for_result)
                  (λ r _. (_, refl, tt))
            | false ↦
                and_then-Ends Any Any
                  (if_intro (Ends Any) conf_open
                    (λ _.
                      wait_tx_complete_total cfg w.conf watch.start watch.later passes.late
                        watch.conf_rounds passes.past_start passes.past_busy passes.for_conf)
                    (λ _. (_, refl, tt)))
                  (λ r _. (_, refl, tt))
          ]

    write_packet_total :
        (w : World)
        → IsValid w.frames
        → Ends Any (write_packet env cfg conf_open packet fuel client watch w)
    unfolding write_packet
    write_packet_total w v =
        let b0 = env.data_accepts w.trace packet in
        let w' : World = record w { trace = wrote packet b0 ∷ w.trace } in
        elim b0
          as (λ b. Ends Any (elim b as (λ _. Option Sending) [
            | true ↦
                and_then (after_write env cfg conf_open packet fuel client watch w')
                  (λ r. some (sent_with r))
            | false ↦ some (
                unsent
                  (restore_rx_freq env cfg conf_open
                    (sleep_ms env (count_drop w') cfg.tx_return_ms).0).0
                  err_tx_socket)
          ])) [
            | true ↦ and_then-Ends Any Any (after_write_total w' v) (λ r _. (_, refl, tt))
            | false ↦ (_, refl, tt)
          ]

    sleep_ms-frames : (w : World) (ms : ℕ) → (sleep_ms env w ms).0.frames ≡ w.frames
    unfolding sleep_ms
    sleep_ms-frames w ms = ground arith

    send_config_freq-frames :
        (w : World) (freq : ℕ) → (send_config_freq env conf_open w freq).0.frames ≡ w.frames
    unfolding send_config_freq
    send_config_freq-frames w freq = ground arith

    shift_and_write_total :
        (w : World) (tx : ℕ)
        → IsValid w.frames
        → Ends Any (shift_and_write env cfg conf_open packet fuel client watch w tx)
    unfolding shift_and_write
    shift_and_write_total w tx v =
        let (w', r) = send_config_freq env conf_open w tx in
        let (w'', settled) = sleep_ms env w' cfg.tx_settle_ms in
        elim r
          as (λ r. Ends Any (elim r as (λ _. Option Sending) [
            | fail e ↦ some (unsent (count_drop w') e)
            | ok u ↦ elim settled as (λ _. Option Sending) [
              | true ↦ write_packet env cfg conf_open packet fuel client watch w''
              | false ↦
                  some (stopped env cfg conf_open packet (restore_rx_freq env cfg conf_open w''))
            ]
          ])) [
            | fail e ↦ (_, refl, tt)
            | ok u ↦
                elim settled
                  as (λ b. Ends Any (elim b as (λ _. Option Sending) [
                    | true ↦ write_packet env cfg conf_open packet fuel client watch w''
                    | false ↦
                        some
                          (stopped env cfg conf_open packet (restore_rx_freq env cfg conf_open w''))
                  ])) [
                    | true ↦ write_packet_total w'' (
                        subst IsValid
                          (sym (sleep_ms-frames w' cfg.tx_settle_ms ∙ send_config_freq-frames w tx))
                          v)
                    | false ↦ (_, refl, tt)
                  ]
          ]

  pub send_packet_total :
      (fds : Fds) (w : World) (packet : Bytes)
      → IsValid w.frames
      → Ends Any (send_packet fuel env cfg fds watch w packet)
  unfolding send_packet
  send_packet_total fds w packet v =
      if_intro (Ends Any) (length packet == 0) (λ _. (_, refl, tt))
        (λ _.
          if_intro (Ends Any) (not fds.data_open) (λ _. (_, refl, tt))
            (λ _.
              elim cfg.tx_freq
                as (λ o. Ends Any (elim o as (λ _. Option Sending) [
                  | none ↦ some (unsent (count_drop w) err_format)
                  | some tx ↦ elim cfg.rx_freq as (λ _. Option Sending) [
                    | none ↦ some (unsent (count_drop w) err_format)
                    | some rx ↦ elim (tx_shift_needed cfg) as (λ _. Option Sending) [
                      | true ↦
                          shift_and_write env cfg fds.conf_open packet fuel fds.client watch w tx
                      | false ↦ write_packet env cfg fds.conf_open packet fuel fds.client watch w
                    ]
                  ]
                ])) [
                  | none ↦ (_, refl, tt)
                  | some tx ↦
                      elim cfg.rx_freq
                        as (λ o. Ends Any (elim o as (λ _. Option Sending) [
                          | none ↦ some (unsent (count_drop w) err_format)
                          | some rx ↦ elim (tx_shift_needed cfg) as (λ _. Option Sending) [
                            | true ↦
                                shift_and_write env cfg fds.conf_open packet fuel fds.client watch w
                                  tx
                            | false ↦
                                write_packet env cfg fds.conf_open packet fuel fds.client watch w
                          ]
                        ])) [
                          | none ↦ (_, refl, tt)
                          | some rx ↦
                              elim (tx_shift_needed cfg)
                                as (λ b. Ends Any (elim b as (λ _. Option Sending) [
                                  | true ↦
                                      shift_and_write env cfg fds.conf_open packet fuel fds.client
                                        watch w tx
                                  | false ↦
                                      write_packet env cfg fds.conf_open packet fuel fds.client
                                        watch w
                                ])) [
                                  | true ↦
                                      shift_and_write_total fds.conf_open packet fds.client w tx v
                                  | false ↦ write_packet_total fds.conf_open packet fds.client w v
                                ]
                        ]
                ]))

-- ===== src/Bridge/Transmit/Closed.antt =====
-- bridge_loraham.c: a drain without its sockets reads nothing.
use loraham_kiss_tnc.Base.{
  ℕ, zero, suc, ◌≡◌, refl, Bool, true, false, ◌&&◌, Option, none, some, Bytes, ok, OnSome, and_then,
  and_then-OnSome_all, ◌∙◌, arith,
}
use loraham_kiss_tnc.Bridge.Radio.{Env, World}
use loraham_kiss_tnc.Bridge.Conf.{ConfState}
use loraham_kiss_tnc.Bridge.Shared.{Config}
use loraham_kiss_tnc.Bridge.Transmit.{
  Fds, Watch, Look, Drained, idle, sent_head, store_head, not_ready, read_conf, send_packet,
  count_drop, drain,
}
use loraham_kiss_tnc.Bridge.TxQueue.{
  TxQueue, Decision, wait, send, drop, queue_head, queue_pop, head_decision,
}

-- Without a CONF socket its state stays, and without both sockets the decoder's.
pub record Untouched (fds : Fds) (w : World) (d : Drained) : Type 0 where
  pub conf_same : fds.conf_open ≡ false → d.world.conf ≡ w.conf
  pub frames_same : (fds.data_open && fds.conf_open) ≡ false → d.world.frames ≡ w.frames

read_conf-closed :
    (conf_open : Bool) (st : ConfState) (look : Look)
    → conf_open ≡ false
    → (read_conf conf_open st look).0 ≡ st
unfolding read_conf
read_conf-closed conf_open st look h = ground arith

module _ (fuel : ℕ) (env : Env) (cfg : Config) (fds : Fds) (watch : Watch) (looks : ℕ → Look) where
  -- What a round does on its decision.
  on_decision-Untouched :
      (k more : ℕ) (w w' : World) (q : TxQueue) (packet : Bytes) (d : Decision)
      → (fds.conf_open ≡ false → w'.conf ≡ w.conf)
      → w'.frames ≡ w.frames
      → OnSome
          (Untouched fds w)
          (drain fuel env cfg fds watch looks (suc k) more (count_drop w') (queue_pop q))
      → OnSome (Untouched fds w) (elim d as (λ _. Option Drained) [
        | wait ↦ some (idle w' q (ok tt))
        | drop ↦ drain fuel env cfg fds watch looks (suc k) more (count_drop w') (queue_pop q)
        | send ↦ elim (fds.data_open && fds.conf_open) as (λ _. Option Drained) [
          | false ↦ some (idle w' q (ok tt))
          | true ↦
              and_then
                (send_packet fuel env cfg fds watch w' packet)
                (λ s. some (sent_head q packet s))
        ]
      ])
  on_decision-Untouched k more w w' q packet wait c f rest = record {
    conf_same = c;
    frames_same = λ _. f;
  }
  on_decision-Untouched k more w w' q packet drop c f rest = rest
  on_decision-Untouched k more w w' q packet send c f rest =
      let both = fds.data_open && fds.conf_open in
      elim both
          as (λ b.
            both ≡ b
            → OnSome (Untouched fds w) (elim b as (λ _. Option Drained) [
              | false ↦ some (idle w' q (ok tt))
              | true ↦
                  and_then (send_packet fuel env cfg fds watch w' packet)
                    (λ s. some (sent_head q packet s))
            ])) [
              | false ↦ λ _. record { conf_same = c; frames_same = λ _. f }
              | true ↦ λ joined.
                  and_then-OnSome_all (Untouched fds w)
                    (send_packet fuel env cfg fds watch w' packet)
                    (λ s. some (sent_head q packet s))
                    (λ s. record {
                      conf_same = λ z. absurd (ground arith);
                      frames_same = λ z. absurd cc;
                    })
            ]
        refl

  pub drain-Untouched :
      (rounds k : ℕ) (w0 w : World) (q : TxQueue)
      → (fds.conf_open ≡ false → w.conf ≡ w0.conf)
      → w.frames ≡ w0.frames
      → OnSome (Untouched fds w0) (drain fuel env cfg fds watch looks k rounds w q)
  unfolding drain
  drain-Untouched zero k w0 w q c f = tt
  drain-Untouched (suc more) k w0 w q c f =
      let (st, r) = read_conf fds.conf_open w.conf (looks k) in
      let w' : World = record w { conf = st } in
      let busy = fds.conf_open && st.flags.tx_busy in
      let c' : fds.conf_open ≡ false → st ≡ w0.conf =
        λ z. read_conf-closed fds.conf_open w.conf (looks k) z ∙ c z in
      elim (queue_head q)
        as (λ o. OnSome (Untouched fds w0) (elim o as (λ _. Option Drained) [
          | none ↦ some (idle w q (ok tt))
          | some item ↦ elim (not_ready fds.conf_open (st, r)) as (λ _. Option Drained) [
            | some result ↦ some (idle w' q result)
            | none ↦
                let (d, item') = head_decision cfg busy item (looks k).now in
                let q' = store_head q item' in
                elim d as (λ _. Option Drained) [
                  | wait ↦ some (idle w' q' (ok tt))
                  | drop ↦
                      drain fuel env cfg fds watch looks (suc k) more (count_drop w') (queue_pop q')
                  | send ↦ elim (fds.data_open && fds.conf_open) as (λ _. Option Drained) [
                    | false ↦ some (idle w' q' (ok tt))
                    | true ↦
                        and_then (send_packet fuel env cfg fds watch w' item'.packet)
                          (λ s. some (sent_head q' item'.packet s))
                  ]
                ]
          ]
        ])) [
          | none ↦ record { conf_same = c; frames_same = λ _. f }
          | some item ↦
              let (d, item') = head_decision cfg busy item (looks k).now in
              let q' = store_head q item' in
              elim (not_ready fds.conf_open (st, r))
                as (λ n. OnSome (Untouched fds w0) (elim n as (λ _. Option Drained) [
                  | some result ↦ some (idle w' q result)
                  | none ↦ elim d as (λ _. Option Drained) [
                    | wait ↦ some (idle w' q' (ok tt))
                    | drop ↦
                        drain fuel env cfg fds watch looks (suc k) more (count_drop w')
                          (queue_pop q')
                    | send ↦ elim (fds.data_open && fds.conf_open) as (λ _. Option Drained) [
                      | false ↦ some (idle w' q' (ok tt))
                      | true ↦
                          and_then (send_packet fuel env cfg fds watch w' item'.packet)
                            (λ s. some (sent_head q' item'.packet s))
                    ]
                  ]
                ])) [
                  | some result ↦ record { conf_same = c'; frames_same = λ _. f }
                  | none ↦
                      on_decision-Untouched k more w0 w' q' item'.packet d c' f
                        (drain-Untouched more (suc k) w0 (count_drop w') (queue_pop q') c' f)
                ]
        ]

-- ===== src/Bridge/Transmit/Returns.antt =====
-- bridge_loraham.c: the drain of the queue returns.
use loraham_kiss_tnc.Base.{
  ℕ, zero, suc, ◌-◌, ◌<◌, ◌≡◌, refl, true, false, ◌&&◌, Option, none, some, and_then, Bytes, ok,
  Ends, and_then-Ends, arith,
}
use loraham_kiss_tnc.Bridge.Radio.{Env, World}
use loraham_kiss_tnc.Bridge.Shared.{Config}
use loraham_kiss_tnc.Bridge.Transmit.{
  Fds, Watch, count_drop, send_packet, Look, Drained, idle, sent_head, store_head, not_ready,
  read_conf, drain,
}
use loraham_kiss_tnc.Bridge.TxQueue.{
  Item, TxQueue, Decision, wait, send, drop, queue_head, queue_pop, head_decision,
}
use loraham_kiss_tnc.Loraham.Framed.{max_payload}
use loraham_kiss_tnc.Loraham.Framed.Stream.{IsValid}
use loraham_kiss_tnc.Bridge.Transmit.Sends.{TimePasses, Any, send_packet_total}

module _ (fuel : ℕ) (enough : max_payload < fuel) (env : Env) (cfg : Config) (watch : Watch)
    (passes : TimePasses cfg watch) where
  store_head-count :
      (q : TxQueue) (item : Item) → (queue_pop (store_head q item)).count ≡ q.count - 1
  unfolding queue_pop
  store_head-count q item = ground arith

  queue_head-count : (q : TxQueue) (item : Item) → queue_head q ≡ some item → 0 < q.count
  unfolding queue_head
  queue_head-count q item e = ground arith

  -- In a round, the decision ends the call, or drops the head and goes on.
  on_decision_total :
      (fds : Fds) (looks : ℕ → Look) (k more : ℕ) (w : World) (q : TxQueue) (packet : Bytes)
      (d : Decision)
      → IsValid w.frames
      → Ends Any (drain fuel env cfg fds watch looks (suc k) more (count_drop w) (queue_pop q))
      → Ends Any (elim d as (λ _. Option Drained) [
        | wait ↦ some (idle w q (ok tt))
        | drop ↦ drain fuel env cfg fds watch looks (suc k) more (count_drop w) (queue_pop q)
        | send ↦ elim (fds.data_open && fds.conf_open) as (λ _. Option Drained) [
          | false ↦ some (idle w q (ok tt))
          | true ↦
              and_then
                (send_packet fuel env cfg fds watch w packet)
                (λ s. some (sent_head q packet s))
        ]
      ])
  on_decision_total fds looks k more w q packet wait v rest = (_, refl, tt)
  on_decision_total fds looks k more w q packet drop v rest = rest
  on_decision_total fds looks k more w q packet send v rest =
      elim (fds.data_open && fds.conf_open)
        as (λ b. Ends Any (elim b as (λ _. Option Drained) [
          | false ↦ some (idle w q (ok tt))
          | true ↦
              and_then (send_packet fuel env cfg fds watch w packet)
                (λ s. some (sent_head q packet s))
        ])) [
          | false ↦ (_, refl, tt)
          | true ↦
              and_then-Ends Any Any
                (send_packet_total fuel enough env cfg watch passes fds w packet v)
                (λ s _. (_, refl, tt))
        ]

  drain_by_rounds :
      (fds : Fds) (looks : ℕ → Look) (rounds k : ℕ) (w : World) (q : TxQueue)
      → IsValid w.frames
      → q.count < rounds
      → Ends Any (drain fuel env cfg fds watch looks k rounds w q)
  unfolding drain
  drain_by_rounds fds looks zero k w q v h = absurd (omega arith)
  drain_by_rounds fds looks (suc more) k w q v h =
      let (st, r) = read_conf fds.conf_open w.conf (looks k) in
      let w' : World = record w { conf = st } in
      let busy = fds.conf_open && st.flags.tx_busy in
      elim (queue_head q)
          as (λ o.
            queue_head q ≡ o
            → Ends Any (elim o as (λ _. Option Drained) [
              | none ↦ some (idle w q (ok tt))
              | some item ↦ elim (not_ready fds.conf_open (st, r)) as (λ _. Option Drained) [
                | some result ↦ some (idle w' q result)
                | none ↦
                    let (d, item') = head_decision cfg busy item (looks k).now in
                    let q' = store_head q item' in
                    elim d as (λ _. Option Drained) [
                      | wait ↦ some (idle w' q' (ok tt))
                      | drop ↦
                          drain fuel env cfg fds watch looks (suc k) more (count_drop w')
                            (queue_pop q')
                      | send ↦ elim (fds.data_open && fds.conf_open) as (λ _. Option Drained) [
                        | false ↦ some (idle w' q' (ok tt))
                        | true ↦
                            and_then (send_packet fuel env cfg fds watch w' item'.packet)
                              (λ s. some (sent_head q' item'.packet s))
                      ]
                    ]
              ]
            ])) [
              | none ↦ λ _. (_, refl, tt)
              | some item ↦ λ e.
                  let (d, item') = head_decision cfg busy item (looks k).now in
                  let q' = store_head q item' in
                  elim (not_ready fds.conf_open (st, r))
                    as (λ n. Ends Any (elim n as (λ _. Option Drained) [
                      | some result ↦ some (idle w' q result)
                      | none ↦ elim d as (λ _. Option Drained) [
                        | wait ↦ some (idle w' q' (ok tt))
                        | drop ↦
                            drain fuel env cfg fds watch looks (suc k) more (count_drop w')
                              (queue_pop q')
                        | send ↦ elim (fds.data_open && fds.conf_open) as (λ _. Option Drained) [
                          | false ↦ some (idle w' q' (ok tt))
                          | true ↦
                              and_then (send_packet fuel env cfg fds watch w' item'.packet)
                                (λ s. some (sent_head q' item'.packet s))
                        ]
                      ]
                    ])) [
                      | some result ↦ (_, refl, tt)
                      | none ↦ on_decision_total fds looks k more w' q' item'.packet d v (
                          drain_by_rounds fds looks more (suc k) (count_drop w') (queue_pop q') v
                            (omega (arith, store_head-count q item', queue_head-count q item e, h)))
                    ]
            ]
        refl

-- With fuel above the 1024 bytes that a frame may carry, and time that goes on in the waits, a drain from a
-- valid decoder state returns within as many rounds as packets wait, and one more, whatever the
-- sockets do.
pub drain_total :
    (fuel : ℕ) (env : Env) (cfg : Config) (fds : Fds) (watch : Watch) (looks : ℕ → Look)
    (k rounds : ℕ) (w : World) (q : TxQueue)
    → max_payload < fuel
    → TimePasses cfg watch
    → IsValid w.frames
    → q.count < rounds
    → (d : Drained) × (drain fuel env cfg fds watch looks k rounds w q ≡ some d)
drain_total fuel env cfg fds watch looks k rounds w q enough passes v h =
    let (d, e, _) = drain_by_rounds fuel enough env cfg watch passes fds looks rounds k w q v h in
    (d, e)

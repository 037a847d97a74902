-- ===== src/Bridge/Transmit/Drain.antt =====
-- bridge_loraham.c: the drain of the queue.
use loraham_kiss_tnc.Base.{
  ℕ, zero, suc, ◌<◌, ◌≡◌, refl, ◌∙◌, OnSome-mono, ap, subst, Bool, true, false, ◌&&◌, List, [], ◌∷◌,
  ◌++◌, Option, none, some, Bytes, Result, ok, fail, OnSome, and_then-OnSome, inr, and_then,
}
use loraham_kiss_tnc.Bridge.Radio.{Env, World, Trace}
use loraham_kiss_tnc.Bridge.Radio.Restore.{radio_freq}
use loraham_kiss_tnc.Bridge.Shared.{Config}
use loraham_kiss_tnc.Bridge.Transmit.{
  Fds, Watch, Look, Drained, idle, sent_head, store_head, not_ready, read_conf, send_packet,
  count_drop, drain,
}
use loraham_kiss_tnc.Bridge.Transmit.Airtime.{WellSent, LeavesRadio, written, Sound}
use loraham_kiss_tnc.Bridge.Transmit.Packet.{send_packet-Sound}
use loraham_kiss_tnc.Bridge.TxQueue.{
  TxQueue, Decision, wait, send, drop, queue_head, queue_pop, head_decision,
}
use loraham_kiss_tnc.Bridge.TxQueue.Fifo.{IsValid}
use loraham_kiss_tnc.Bridge.Transmit.Head.{packets, Stored, head_decision-packet, store_head-Stored}

abbrev pub as_list : Option Bytes → List Bytes
as_list none = []
as_list (some p) = p ∷ []

abbrev pub is_some : Option Bytes → Bool
is_some none = false
is_some (some p) = true

-- What a drain leaves behind, from what was done before it: the ring valid, and of the packets that waited
-- first those that were given up, then the one that was written, if any, then those that still wait; the
-- DATA socket took that one packet and no other, on the transmit frequency, and where the radio is.
pub record Accounted (cfg : Config) (rx : ℕ) (before : Trace) (q : TxQueue) (d : Drained)
    : Type 0 where
  pub valid : IsValid d.queue
  pub given_up : List Bytes
  pub in_order : packets q ≡ given_up ++ (as_list d.on_air ++ packets d.queue)
  pub on_air_once : written d.world.trace ≡ as_list d.on_air ++ written before
  pub on_frequency : WellSent cfg d.world.trace
  pub radio : LeavesRadio cfg rx (radio_freq before) (is_some d.on_air) d.result d.world.trace

module _ (cfg : Config) (rx : ℕ) (known : cfg.rx_freq ≡ some rx) (above : 0 < rx) where
  -- A world that a drain starts from.
  abbrev CanSend : Trace → World → Type 0
  CanSend before w = WellSent cfg w.trace × (w.trace ≡ before)

  unmoved-LeavesRadio :
      (start : Option ℕ) (r : Result (Unit {0})) (t : Trace)
      → radio_freq t ≡ start
      → LeavesRadio cfg rx start false r t
  unmoved-LeavesRadio start (ok u) t h = h
  unmoved-LeavesRadio start (fail e) t h = inr h

  idle-Accounted :
      (before : Trace) (q q' : TxQueue) (w : World) (r : Result (Unit {0}))
      → IsValid q'
      → packets q ≡ packets q'
      → CanSend before w
      → Accounted cfg rx before q (idle w q' r)
  idle-Accounted before q q' w r v same h =
      let stays : radio_freq w.trace ≡ radio_freq before = ap radio_freq h.1 in
      record {
        valid = v;
        given_up = [];
        in_order = same;
        on_air_once = ap written h.1;
        on_frequency = h.0;
        radio = unmoved-LeavesRadio (radio_freq before) r w.trace stays;
      }

  -- A packet that was given up stands before those of the rest of the call.
  given_up-Accounted :
      (before : Trace) (q q' : TxQueue) (packet : Bytes)
      → packets q ≡ packet ∷ packets q'
      → (d : Drained) → Accounted cfg rx before q' d
      → Accounted cfg rx before q d
  given_up-Accounted before q q' packet e d a = record {
    valid = a.valid;
    given_up = packet ∷ a.given_up;
    in_order = e ∙ ap (λ ps. packet ∷ ps) a.in_order;
    on_air_once = a.on_air_once;
    on_frequency = a.on_frequency;
    radio = a.radio;
  }

  sent_head-Accounted :
      (before : Trace) (q q' : TxQueue) (packet : Bytes) (w : World) (r : Result (Unit {0}))
      (b : Bool)
      → Stored q q' packet
      → Sound cfg rx packet before (record { world = w; result = r; written = b })
      → Accounted cfg rx before q
          (sent_head q' packet (record { world = w; result = r; written = b }))
  sent_head-Accounted before q q' packet w (ok u) false st a =
      let off : false ≡ true = a.told refl in absurd cc
  sent_head-Accounted before q q' packet w (ok u) true st a = record {
    valid = st.behind_valid;
    given_up = [];
    in_order = st.behind;
    on_air_once = a.once;
    on_frequency = a.on_frequency;
    radio = a.radio;
  }
  sent_head-Accounted before q q' packet w (fail e) true st a = record {
    valid = st.behind_valid;
    given_up = [];
    in_order = st.behind;
    on_air_once = a.once;
    on_frequency = a.on_frequency;
    radio = a.radio;
  }
  sent_head-Accounted before q q' packet w (fail e) false st a = record {
    valid = st.valid;
    given_up = [];
    in_order = st.same;
    on_air_once = a.once;
    on_frequency = a.on_frequency;
    radio = a.radio;
  }

module _ (fuel : ℕ) (env : Env) (cfg : Config) (fds : Fds) (watch : Watch) (looks : ℕ → Look)
    (rx : ℕ) (known : cfg.rx_freq ≡ some rx) (above : 0 < rx) where
  -- What a round does on its decision.
  abbrev on_decision : ℕ → ℕ → World → TxQueue → Bytes → Decision → Option Drained
  on_decision k more w q packet d = elim d [
    | wait ↦ some (idle w q (ok tt))
    | drop ↦ drain fuel env cfg fds watch looks (suc k) more (count_drop w) (queue_pop q)
    | send ↦ elim (fds.data_open && fds.conf_open) [
      | false ↦ some (idle w q (ok tt))
      | true ↦
          and_then (send_packet fuel env cfg fds watch w packet) (λ s. some (sent_head q packet s))
    ]
  ]

  on_decision-Accounted :
      (k more : ℕ) (before : Trace) (w : World) (q q' : TxQueue) (packet : Bytes) (d : Decision)
      → Stored q q' packet
      → CanSend cfg rx known above before w
      → OnSome
          (Accounted cfg rx before (queue_pop q'))
          (drain fuel env cfg fds watch looks (suc k) more (count_drop w) (queue_pop q'))
      → OnSome (Accounted cfg rx before q) (on_decision k more w q' packet d)
  on_decision-Accounted k more before w q q' packet wait st h rest =
      idle-Accounted cfg rx known above before q q' w (ok tt) st.valid st.same h
  on_decision-Accounted k more before w q q' packet drop st h rest =
      OnSome-mono (Accounted cfg rx before (queue_pop q')) (Accounted cfg rx before q)
        (drain fuel env cfg fds watch looks (suc k) more (count_drop w) (queue_pop q'))
        (given_up-Accounted cfg rx known above before q (queue_pop q') packet st.behind) rest
  on_decision-Accounted k more before w q q' packet send st h rest =
      let P = OnSome (Accounted cfg rx before q) in
      elim (fds.data_open && fds.conf_open)
        as (λ b. P (elim b as (λ _. Option Drained) [
          | false ↦ some (idle w q' (ok tt))
          | true ↦
              and_then (send_packet fuel env cfg fds watch w packet)
                (λ s. some (sent_head q' packet s))
        ])) [
          | false ↦ idle-Accounted cfg rx known above before q q' w (ok tt) st.valid st.same h
          | true ↦
              and_then-OnSome (Sound cfg rx packet before) (Accounted cfg rx before q)
                (send_packet fuel env cfg fds watch w packet) (λ s. some (sent_head q' packet s))
                (subst
                  (λ b.
                    OnSome (Sound cfg rx packet b) (send_packet fuel env cfg fds watch w packet))
                  h.1 (send_packet-Sound fuel env cfg fds watch w packet rx known above h.0))
                (λ s a.
                  sent_head-Accounted cfg rx known above before q q' packet s.world s.result
                    s.written st a)
        ]

-- From a valid queue, and a world in which each packet so far was written on the transmit frequency,
-- and with a known receive frequency above 0, a drain that returns has taken the packets in their
-- order: it gave up some, wrote at most one behind these, and keeps all others. The packet that was
-- written, and no other, is the one that the DATA socket took, and it is out of the queue, whatever
-- error the call returns; the ring is valid, and the packet went out on the transmit frequency, where
-- that is more than 1 Hz from the receive frequency. A call that wrote a packet and succeeds leaves
-- the radio on the receive frequency, or where it was if the two frequencies are at most 1 Hz apart;
-- one that wrote a packet and fails does so too, or the newest config line is the one for the receive
-- frequency and the CONF socket refused it. A call that wrote nothing and succeeds leaves the radio
-- where it was, and one that fails leaves it there or in one of the states named for a written packet.
pub drain-Accounted :
    (fuel : ℕ) (env : Env) (cfg : Config) (fds : Fds) (watch : Watch) (looks : ℕ → Look) (rx : ℕ)
    → cfg.rx_freq ≡ some rx
    → 0 < rx
    → (k rounds : ℕ) (w : World) (q : TxQueue) → IsValid q
    → WellSent cfg w.trace
    → OnSome (Accounted cfg rx w.trace q) (drain fuel env cfg fds watch looks k rounds w q)
unfolding drain
drain-Accounted fuel env cfg fds watch looks rx known above k zero w q v good = tt
drain-Accounted fuel env cfg fds watch looks rx known above k (suc more) w q v good =
    let before = w.trace in
    let P = OnSome (Accounted cfg rx before q) in
    let (st, r) = read_conf fds.conf_open w.conf (looks k) in
    let w' : World = record w { conf = st } in
    let step = on_decision fuel env cfg fds watch looks rx known above k more w' in
    elim (queue_head q)
        as (λ o.
          queue_head q ≡ o
          → P (elim o as (λ _. Option Drained) [
            | none ↦ some (idle w q (ok tt))
            | some item ↦ elim (not_ready fds.conf_open (st, r)) as (λ _. Option Drained) [
              | some result ↦ some (idle w' q result)
              | none ↦
                  let (d, item') =
                    head_decision cfg (fds.conf_open && st.flags.tx_busy) item (looks k).now in
                  step (store_head q item') item'.packet d
            ]
          ])) [
            | none ↦ λ _. idle-Accounted cfg rx known above before q q w (ok tt) v refl (good, refl)
            | some item ↦ λ e.
                let busy = fds.conf_open && st.flags.tx_busy in
                let (d, item') = head_decision cfg busy item (looks k).now in
                let q' = store_head q item' in
                let s =
                  store_head-Stored q item item' v e
                    (head_decision-packet cfg busy item (looks k).now) in
                elim (not_ready fds.conf_open (st, r))
                  as (λ n. P (elim n as (λ _. Option Drained) [
                    | some result ↦ some (idle w' q result)
                    | none ↦ step q' item'.packet d
                  ])) [
                    | some result ↦
                        idle-Accounted cfg rx known above before q q w' result v refl (good, refl)
                    | none ↦
                        on_decision-Accounted fuel env cfg fds watch looks rx known above k more
                          before w' q q' item'.packet d s (good, refl)
                          (drain-Accounted fuel env cfg fds watch looks rx known above (suc k) more
                            (count_drop w') (queue_pop q') s.behind_valid good)
                  ]
          ]
      refl

-- ===== src/Bridge/TxQueue/Policy.antt =====
-- bridge_tx_queue.c: when the head of the queue is sent, kept or dropped.
use loraham_kiss_tnc.Base.{
  ℕ, ◌+◌, ◌≤◌, ◌<◌, ◌≡◌, refl, Bool, true, false, ◌&&◌, ltb, leb, ◌==◌, if◌then◌else◌, ◌⊎◌, inl,
  inr, if_intro, leb→le, arith, List, [], ◌∷◌, ◌∙◌,
}
use loraham_kiss_tnc.Bridge.Shared.{Config}
use loraham_kiss_tnc.Bridge.TxQueue.{Item, Decision, wait, send, drop, head_decision}

-- The packet has waited in the queue as long as it may; a limit of 0 is none.
abbrev pub Expired : Config → Item → ℕ → Type 0
Expired cfg item now = (0 < cfg.tx_packet_ttl_ms) × (item.queued_ms + cfg.tx_packet_ttl_ms ≤ now)

-- When the wait for an idle transmitter began: now, if none has begun.
abbrev pub wait_start : Item → ℕ → ℕ
wait_start item now = if item.tx_wait_start_ms == 0 then now else item.tx_wait_start_ms

abbrev pub Justified : Config → Bool → Item → ℕ → Decision × Item → Type 0
Justified cfg busy item now (send, item') =
    ¬ Expired cfg item now × (busy ≡ false) × (item' ≡ record item { tx_wait_start_ms = 0 })
Justified cfg busy item now (wait, item') =
    ¬ Expired cfg item now
    × (busy ≡ true)
    × (now < wait_start item now + cfg.tx_busy_timeout_ms)
    × (item' ≡ record item { tx_wait_start_ms = wait_start item now })
Justified cfg busy item now (drop, item') =
    Expired cfg item now ⊎ ((busy ≡ true) × (wait_start item now + cfg.tx_busy_timeout_ms ≤ now))

-- A packet is sent only while it is not expired and the transmitter is idle, it waits only while it
-- is not expired, the transmitter is busy and the busy time is not over, and it is dropped only when it
-- is expired or the busy time is over. A wait keeps the time at which it began, and an idle
-- transmitter clears it.
pub head_decision-Justified :
    (cfg : Config) (busy : Bool) (item : Item) (now : ℕ)
    → Justified cfg busy item now (head_decision cfg busy item now)
unfolding head_decision
head_decision-Justified cfg busy item now =
    let item' = record item { tx_wait_start_ms = wait_start item now } in
    if_intro (Justified cfg busy item now)
      (ltb 0 cfg.tx_packet_ttl_ms && leb (item.queued_ms + cfg.tx_packet_ttl_ms) now)
      (λ old. inl (ground arith))
      (λ fresh.
        if_intro (Justified cfg busy item now) busy
          (λ b.
            if_intro (λ d. Justified cfg busy item now (d, item'))
              (leb (wait_start item now + cfg.tx_busy_timeout_ms) now)
              (λ over. inr (b, leb→le _ _ over))
              (λ early. ((λ x. ground arith), b, ground arith, refl)))
          (λ idle. ((λ x. ground arith), idle, refl)))

-- The item behind looks at the head at `times`, with the transmitter busy at each of them.
abbrev pub polled : Config → Item → List ℕ → Item
polled cfg item [] = item
polled cfg item (now ∷ times) = polled cfg (head_decision cfg true item now).1 times

-- A look at a packet whose wait has begun leaves the time at which it began.
head_decision-wait_start :
    (cfg : Config) (item : Item) (now : ℕ)
    → 0 < item.tx_wait_start_ms
    → (head_decision cfg true item now).1.tx_wait_start_ms ≡ item.tx_wait_start_ms
unfolding head_decision
head_decision-wait_start cfg item now p = ground arith

polled-wait_start :
    (cfg : Config) (item : Item) (times : List ℕ)
    → 0 < item.tx_wait_start_ms
    → (polled cfg item times).tx_wait_start_ms ≡ item.tx_wait_start_ms
polled-wait_start cfg item [] p = refl
polled-wait_start cfg item (now ∷ times) p =
    let e = head_decision-wait_start cfg item now p in
    polled-wait_start cfg (head_decision cfg true item now).1 times (rw e p) ∙ e

begun :
    (cfg : Config) (item : Item) (t : ℕ)
    → item.tx_wait_start_ms ≡ 0
    → (head_decision cfg true item t).0 ≡ wait
    → (head_decision cfg true item t).1.tx_wait_start_ms ≡ t
unfolding head_decision
begun cfg item t e w = ground arith

over :
    (cfg : Config) (item : Item) (now : ℕ)
    → 0 < item.tx_wait_start_ms
    → item.tx_wait_start_ms + cfg.tx_busy_timeout_ms ≤ now
    → (head_decision cfg true item now).0 ≡ drop
unfolding head_decision
over cfg item now p h = ground arith

-- A packet does not wait for a busy transmitter for ever: once a wait was begun at a time above 0, and
-- however often and at whatever times the packet was looked at since, with the transmitter busy at
-- each look, a decision from the limit on, counted from that first time, and with the transmitter
-- still busy, drops it.
pub head_decision_timeout :
    (cfg : Config) (item : Item) (t : ℕ) (times : List ℕ) (now : ℕ)
    → 0 < t
    → item.tx_wait_start_ms ≡ 0
    → t + cfg.tx_busy_timeout_ms ≤ now
    → (head_decision cfg true item t).0 ≡ wait
    → (head_decision cfg true (polled cfg item (t ∷ times)) now).0 ≡ drop
head_decision_timeout cfg item t times now p e h w =
    let item1 = (head_decision cfg true item t).1 in
    let start : item1.tx_wait_start_ms ≡ t = begun cfg item t e w in
    let kept : (polled cfg item1 times).tx_wait_start_ms ≡ t =
      polled-wait_start cfg item1 times (omega (arith, start, p)) ∙ start in
    over cfg (polled cfg item1 times) now (omega (arith, kept, p)) (omega (arith, kept, h))

-- ===== src/Bridge/TxQueue.antt =====
-- bridge_tx_queue.c, bridge_tx_queue.h: the ring of outgoing packets and the decision on its head.
-- The clock's value is an argument, `now`; `now - t >= d` is written `t + d <= now`.
pub mod Fifo
pub mod Policy
use loraham_kiss_tnc.Base.{
  ℕ, ◌+◌, ◌-◌, ◌%◌, Bool, true, false, ◌&&◌, ◌||◌, List, [], ◌∷◌, Option, none, some, ltb, leb,
  ◌==◌, if◌then◌else◌, Bytes, length, get_or, set, replicate, err_format, err_nospace, Result, ok,
  fail,
}
use loraham_kiss_tnc.Loraham.Framed.{tx_max}
use loraham_kiss_tnc.Bridge.Shared.{Config}

abbrev pub queue_max : ℕ
queue_max = 16

pub record Item : Type 0 where
  pub packet : Bytes
  pub queued_ms : ℕ
  pub tx_wait_start_ms : ℕ

pub record TxQueue : Type 0 where
  pub items : List Item
  pub head : ℕ
  pub count : ℕ

pub data Decision : Type 0 where
  wait send drop : Decision

abbrev pub no_item : Item
no_item = record { packet = []; queued_ms = 0; tx_wait_start_ms = 0 }

abbrev pub queue_init : TxQueue
queue_init = record { items = replicate queue_max no_item; head = 0; count = 0 }

abbrev pub queue_limit : Config → ℕ
queue_limit cfg =
    if ltb cfg.tx_queue_len 1
    then 1
    else if ltb queue_max cfg.tx_queue_len
    then queue_max
    else cfg.tx_queue_len

abbrev pub queue_empty : TxQueue → Bool
queue_empty q = q.count == 0

unfoldable pub queue_head : TxQueue → Option Item
queue_head q = if q.count == 0 then none else some (get_or q.items q.head no_item)

unfoldable pub queue_pop : TxQueue → TxQueue
queue_pop q = if q.count == 0 then q else record {
  items = set q.items q.head no_item;
  head = (q.head + 1) % queue_max;
  count = q.count - 1;
}

abbrev pub new_item : Bytes → ℕ → Item
new_item packet now = record { packet = packet; queued_ms = now; tx_wait_start_ms = 0 }

unfoldable pub queue_push : TxQueue → Config → Bytes → ℕ → Result TxQueue
queue_push q cfg packet now =
    if length packet == 0 || ltb tx_max (length packet)
    then fail err_format
    else if leb (queue_limit cfg) q.count
    then fail err_nospace
    else ok (record q {
      items = set q.items ((q.head + q.count) % queue_max) (new_item packet now);
      count = q.count + 1;
    })

-- The decision on an item, with the item as the call leaves it. `busy` is `conf_state->tx_busy`,
-- false where there is no CONF state.
unfoldable pub head_decision : Config → Bool → Item → ℕ → Decision × Item
head_decision cfg busy item now =
    let start = if item.tx_wait_start_ms == 0 then now else item.tx_wait_start_ms in
    if ltb 0 cfg.tx_packet_ttl_ms && leb (item.queued_ms + cfg.tx_packet_ttl_ms) now
    then (drop, item)
    else if busy
    then (
      if leb (start + cfg.tx_busy_timeout_ms) now then drop else wait,
      record item { tx_wait_start_ms = start },
    )
    else (send, record item { tx_wait_start_ms = 0 })

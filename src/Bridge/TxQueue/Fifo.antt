-- ===== src/Bridge/TxQueue/Fifo.antt =====
-- bridge_tx_queue.c: the ring against the list of the packets queued.
use loraham_kiss_tnc.Base.{
  ℕ, zero, suc, ◌+◌, ◌-◌, ◌%◌, ◌≤◌, ◌<◌, ◌≡◌, ◌≢◌, refl, ◌∙◌, ap, ap₂, ◌||◌, List, [], ◌∷◌, ◌++◌,
  Option, none, some, ltb, leb, ◌==◌, if◌then◌else◌, Bytes, length, get_or, set, length-set,
  get_or-set_self, get_or-set_ne, err_format, err_nospace, Result, ok, fail, Bool-cases, eqb→eq,
  inl, inr, ◌⊎◌, arith,
}
use loraham_kiss_tnc.Loraham.Framed.{tx_max}
use loraham_kiss_tnc.Bridge.Shared.{Config}
use loraham_kiss_tnc.Bridge.TxQueue.{
  queue_max, Item, TxQueue, no_item, queue_init, queue_limit, queue_head, queue_pop, new_item,
  queue_push,
}

pub record IsValid (q : TxQueue) : Type 0 where
  pub size : length q.items ≡ queue_max
  pub head_lt : q.head < queue_max
  pub count_le : q.count ≤ queue_max

-- The `n` items from place `h` on, round the end of the array.
window : List Item → ℕ → ℕ → List Item
window items h zero = []
window items h (suc n) = get_or items h no_item ∷ window items ((h + 1) % queue_max) n

-- The queue as its users see it: the packets waiting, the oldest first.
unfoldable pub contents : TxQueue → List Item
unfolding window
contents q = window q.items q.head q.count

length-window : (items : List Item) (h n : ℕ) → length (window items h n) ≡ n
unfolding window
length-window items h zero = refl
length-window items h (suc n) = ap suc (length-window items ((h + 1) % queue_max) n)

pub length-contents : (q : TxQueue) → length (contents q) ≡ q.count
unfolding contents
length-contents q = length-window q.items q.head q.count

-- A write at a place that the window does not reach.
window-set :
    (items : List Item) (v : Item) (n h m i : ℕ)
    → h < queue_max
    → n ≤ m
    → m < queue_max
    → i ≡ (h + m) % queue_max
    → window (set items i v) h n ≡ window items h n
unfolding window
window-set items v zero h m i p q r e = refl
window-set items v (suc n) h m i p q r e = ap₂ ◌∷◌ (get_or-set_ne items v no_item (omega arith)) (
    window-set items v n ((h + 1) % queue_max) (m - 1) i (omega arith) (omega arith) (omega arith)
      (omega arith))

window-suc :
    (items : List Item) (n h : ℕ)
    → h < queue_max
    → window items h (suc n) ≡ window items h n ++ get_or items ((h + n) % queue_max) no_item ∷ []
unfolding window
window-suc items zero h p = ap (λ k. get_or items k no_item ∷ []) (omega arith)
window-suc items (suc n) h p = ap (◌∷◌ (get_or items h no_item)) (
    window-suc items n ((h + 1) % queue_max) (omega arith)
    ∙ ap (λ k. window items ((h + 1) % queue_max) n ++ get_or items k no_item ∷ []) (omega arith))

window-pred :
    (items : List Item) (h n : ℕ)
    → n ≢ 0
    → window items h n ≡ get_or items h no_item ∷ window items ((h + 1) % queue_max) (n - 1)
unfolding window
window-pred items h zero ne = absurd (ne refl)
window-pred items h (suc n) ne =
    ap (λ k. get_or items h no_item ∷ window items ((h + 1) % queue_max) k) (omega arith)

-- The queue as an abstract list, for the three operations.
abbrev pub oldest : List Item → Option Item
oldest [] = none
oldest (x ∷ xs) = some x

abbrev pub without_oldest : List Item → List Item
without_oldest [] = []
without_oldest (x ∷ xs) = xs

-- What a push does to the list of waiting packets.
pub record Pushed (cfg : Config) (q : TxQueue) (item : Item) (q' : TxQueue) : Type 0 where
  pub some_bytes : 0 < length item.packet
  pub fits : length item.packet ≤ tx_max
  pub room : length (contents q) < queue_limit cfg
  pub valid : IsValid q'
  pub behind : contents q' ≡ contents q ++ item ∷ []

window_push :
    (items : List Item) (h n : ℕ) (v : Item)
    → length items ≡ queue_max
    → h < queue_max
    → n < queue_max
    → window (set items ((h + n) % queue_max) v) h (suc n) ≡ window items h n ++ v ∷ []
window_push items h n v s p r =
    window-suc (set items ((h + n) % queue_max) v) n h p
    ∙ ap₂ (λ xs x. xs ++ x ∷ []) (window-set items v n h n _ p (omega arith) r refl)
        (get_or-set_self items ((h + n) % queue_max) v no_item (omega arith))

queue_limit-le : (cfg : Config) → queue_limit cfg ≤ queue_max
queue_limit-le cfg = ground arith

pub queue_init-IsValid : IsValid queue_init × (contents queue_init ≡ [])
unfolding contents window
queue_init-IsValid = (record { size = refl; head_lt = omega arith; count_le = omega arith }, refl)

-- A push on a valid queue is refused for an empty packet, a packet of more than 255 bytes, or a full queue, with the
-- code for each; else, and only then, the packet stands behind those that wait, with its time and no wait begun.
pub queue_push_refines :
    (q : TxQueue) (cfg : Config) (packet : Bytes) (now : ℕ)
    → IsValid q
    → ((queue_push q cfg packet now ≡ fail err_format)
        × ((length packet ≡ 0) ⊎ (tx_max < length packet)))
      ⊎ ((queue_push q cfg packet now ≡ fail err_nospace) × (queue_limit cfg ≤ length (contents q)))
      ⊎ ((q' : TxQueue) × (queue_push q cfg packet now ≡ ok q')
          × Pushed cfg q (new_item packet now) q')
unfolding queue_push contents
queue_push_refines q cfg packet now v =
    elim (Bool-cases (length packet == 0 || ltb tx_max (length packet))) [
      | inl bad ↦ inl (rw bad, ground arith)
      | inr good ↦ elim (Bool-cases (leb (queue_limit cfg) q.count)) [
        | inl full ↦ inr (inl (rw (good, full), ground (arith, length-contents q)))
        | inr room ↦ inr (
            inr (
              record q {
                items = set q.items ((q.head + q.count) % queue_max) (new_item packet now);
                count = q.count + 1;
              },
              rw (good, room),
              record {
                some_bytes = ground arith;
                fits = ground arith;
                room = ground (arith, length-window q.items q.head q.count);
                valid = record {
                  size = length-set q.items _ _ ∙ v.size;
                  head_lt = v.head_lt;
                  count_le = ground (arith, queue_limit-le cfg);
                };
                behind =
                    ap
                      (window (set q.items ((q.head + q.count) % queue_max) (new_item packet now))
                        q.head)
                      {y = suc q.count} (omega arith)
                    ∙ window_push q.items q.head q.count (new_item packet now) v.size v.head_lt
                        (ground (arith, queue_limit-le cfg));
              },
            ))
      ]
    ]

-- On a valid queue the head is the oldest packet that waits, and a pop takes exactly that one; on an empty queue
-- there is no head and a pop changes nothing.
pub queue_pop_refines :
    (q : TxQueue)
    → IsValid q
    → (queue_head q ≡ oldest (contents q))
      × (contents (queue_pop q) ≡ without_oldest (contents q))
      × IsValid (queue_pop q)
unfolding queue_head queue_pop contents
queue_pop_refines q v = elim (Bool-cases (q.count == 0)) [
  | inl e ↦
      rw (e, eqb→eq q.count 0 e)
        (refl, refl, record { size = v.size; head_lt = v.head_lt; count_le = omega arith })
  | inr ne ↦
      rw (ne, window-pred q.items q.head q.count (ground arith))
        (
          refl,
          window-set q.items no_item (q.count - 1) ((q.head + 1) % queue_max) 15 q.head
              (omega arith) (omega arith) (omega arith) (omega arith),
          record {
            size = length-set q.items q.head no_item ∙ v.size;
            head_lt = omega arith;
            count_le = omega arith;
          },
        )
]

-- What the code's users do with the queue: push a packet at some time, or pop the head.
pub data Op : Type 0 where
  push : Bytes → ℕ → Op
  pop : Op

-- The state behind a sequence of calls; a refused push leaves the queue as it is.
abbrev ok_or : TxQueue → Result TxQueue → TxQueue
ok_or q (ok q') = q'
ok_or q (fail e) = q

unfoldable pub run : Config → TxQueue → List Op → TxQueue
run cfg q [] = q
run cfg q (push packet now ∷ ops) = run cfg (ok_or q (queue_push q cfg packet now)) ops
run cfg q (pop ∷ ops) = run cfg (queue_pop q) ops

-- The same on the list of waiting packets.
pub fifo : Config → List Item → List Op → List Item
fifo cfg xs [] = xs
fifo cfg xs (push packet now ∷ ops) =
    fifo cfg
      (if length packet == 0 || ltb tx_max (length packet) || leb (queue_limit cfg) (length xs)
        then xs
        else xs ++ new_item packet now ∷ [])
      ops
fifo cfg xs (pop ∷ ops) = fifo cfg (without_oldest xs) ops

push_step :
    (cfg : Config) (q : TxQueue) (packet : Bytes) (now : ℕ)
    → IsValid q
    → let q' = ok_or q (queue_push q cfg packet now) in
      IsValid q'
      × (contents q' ≡ (
          if length packet == 0
            || ltb tx_max (length packet)
            || leb (queue_limit cfg) (length (contents q))
          then contents q
          else contents q ++ new_item packet now ∷ []))
push_step cfg q packet now v = elim (queue_push_refines q cfg packet now v) [
  | inl (e, bad) ↦ rw e (v, ground arith)
  | inr (inl (e, full)) ↦ rw e (v, ground arith)
  | inr (inr (q', e, p)) ↦ rw e (p.valid, ground (arith, p.behind, p.some_bytes, p.fits, p.room))
]

-- Whatever calls are made on a valid queue, in whatever order, the ring keeps its invariant and holds
-- exactly what a first-in first-out list of bounded length holds behind the same calls.
pub run_refines :
    (cfg : Config) (ops : List Op) (q : TxQueue)
    → IsValid q
    → IsValid (run cfg q ops) × (contents (run cfg q ops) ≡ fifo cfg (contents q) ops)
unfolding run fifo
run_refines cfg [] q v = (v, refl)
run_refines cfg (push packet now ∷ ops) q v =
    let (w, e) = push_step cfg q packet now v in
    let (w', e') = run_refines cfg ops _ w in (w', e' ∙ ap (λ xs. fifo cfg xs ops) e)
run_refines cfg (pop ∷ ops) q v =
    let (h, e, w) = queue_pop_refines q v in
    let (w', e') = run_refines cfg ops (queue_pop q) w in (w', e' ∙ ap (λ xs. fifo cfg xs ops) e)

-- The head is rewritten in place.
pub contents-store_head :
    (q : TxQueue) (item : Item)
    → IsValid q
    → q.count ≢ 0
    → let q' : TxQueue = record q { items = set q.items q.head item } in
      IsValid q' × (contents q' ≡ item ∷ without_oldest (contents q))
unfolding contents
contents-store_head q item v ne = (
  record {
    size = length-set q.items q.head item ∙ v.size;
    head_lt = v.head_lt;
    count_le = v.count_le;
  },
  rw (window-pred q.items q.head q.count ne) (
      window-pred (set q.items q.head item) q.head q.count ne
      ∙ ap₂ ◌∷◌ (get_or-set_self q.items q.head item no_item (omega (arith, v.head_lt, v.size))) (
          window-set q.items item (q.count - 1) ((q.head + 1) % queue_max) 15 q.head (omega arith)
            (omega (arith, v.count_le)) (omega arith) (omega (arith, v.head_lt)))),
)

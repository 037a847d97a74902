-- ===== src/Bridge/Transmit/Head.antt =====
-- bridge_loraham.c, bridge_tx_queue.c: the packets that wait, and the head of the queue that a drain looks at.
use loraham_kiss_tnc.Base.{ℕ, ◌≡◌, ◌≢◌, ◌∙◌, ap, sym, Bool, List, [], ◌∷◌, map, some, Bytes, arith}
use loraham_kiss_tnc.Bridge.Shared.{Config}
use loraham_kiss_tnc.Bridge.Transmit.{store_head}
use loraham_kiss_tnc.Bridge.TxQueue.{Item, TxQueue, queue_head, queue_pop, head_decision}
use loraham_kiss_tnc.Bridge.TxQueue.Fifo.{
  IsValid, contents, oldest, without_oldest, queue_pop_refines, contents-store_head,
}

-- The packets that wait, the oldest first.
abbrev pub packet_of : Item → Bytes
packet_of item = item.packet

abbrev pub packets : TxQueue → List Bytes
packets q = map packet_of (contents q)

-- The decision leaves the packet as it is.
pub head_decision-packet :
    (cfg : Config) (busy : Bool) (item : Item) (now : ℕ)
    → (head_decision cfg busy item now).1.packet ≡ item.packet
unfolding head_decision
head_decision-packet cfg busy item now = ground arith

-- A queue with the head rewritten, for its packets, and the queue behind it.
pub record Stored (q q' : TxQueue) (packet : Bytes) : Type 0 where
  pub valid : IsValid q'
  pub same : packets q ≡ packets q'
  pub behind_valid : IsValid (queue_pop q')
  pub behind : packets q ≡ packet ∷ packets (queue_pop q')

head-count : (q : TxQueue) (item : Item) → queue_head q ≡ some item → q.count ≢ 0
unfolding queue_head
head-count q item e z = ground arith

contents-head :
    (q : TxQueue) (item : Item)
    → IsValid q
    → queue_head q ≡ some item
    → contents q ≡ item ∷ without_oldest (contents q)
contents-head q item v e =
    let first : oldest (contents q) ≡ some item = sym (queue_pop_refines q v).0 ∙ e in
    elim (contents q) as (λ c. oldest c ≡ some item → c ≡ item ∷ without_oldest c) [
      | [] ↦ λ h. absurd cc
      | x ∷ xs ↦ λ h. cc
    ]
      first

pub store_head-Stored :
    (q : TxQueue) (item item' : Item)
    → IsValid q
    → queue_head q ≡ some item
    → item'.packet ≡ item.packet
    → Stored q (store_head q item') item'.packet
store_head-Stored q item item' v e same =
    let (v', c') = contents-store_head q item' v (head-count q item e) in
    let c = contents-head q item v e in
    let (_, pop, pv) = queue_pop_refines (store_head q item') v' in
    let rest = map packet_of (without_oldest (contents q)) in
    let first : packets q ≡ item'.packet ∷ rest =
      ap (map packet_of) c ∙ ap (λ p. p ∷ rest) (sym same) in
    record {
      valid = v';
      same = first ∙ sym (ap (map packet_of) c');
      behind_valid = pv;
      behind = first ∙ ap (λ c. item'.packet ∷ map packet_of c) (sym (pop ∙ ap without_oldest c'));
    }

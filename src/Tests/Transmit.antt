-- ===== src/Tests/Transmit.antt =====
-- bridge_tx_queue.c and bridge_kiss.c at fixed inputs.
use loraham_kiss_tnc.Base.{
  ◌<◌, ◌≤◌, ◌≡◌, refl, true, List, [], ◌∷◌, ◌++◌, Bytes, length, codes, err_nospace, err_format, ok,
  fail, ◌⊎◌, arith,
}
use loraham_kiss_tnc.Ax25.RoundTrip.{frame_bytes, decode_ui-frame_bytes}
use loraham_kiss_tnc.Bridge.Ingress.{handle_data_frame, handle_frame}
use loraham_kiss_tnc.Bridge.Ingress.Delivery.{
  Effect, handle_frame-Effect, handle_data_frame_delivers,
}
use loraham_kiss_tnc.Bridge.Shared.{Config, config_zero, stats_init}
use loraham_kiss_tnc.Bridge.TxQueue.{
  Item, TxQueue, wait, drop, queue_init, queue_limit, queue_pop, queue_push, new_item,
  head_decision,
}
use loraham_kiss_tnc.Bridge.TxQueue.Fifo.{
  IsValid, contents, Pushed, Op, push, pop, run, fifo, queue_init-IsValid, queue_push_refines,
  run_refines,
}
use loraham_kiss_tnc.Bridge.TxQueue.Policy.{
  Justified, polled, head_decision-Justified, head_decision_timeout,
}
use loraham_kiss_tnc.Kiss
use loraham_kiss_tnc.Kiss.{params_init}
use loraham_kiss_tnc.Loraham.Framed.{tx_max}
use loraham_kiss_tnc.Loraham.Packet.{hdr}
use loraham_kiss_tnc.Tests.Data.{
  station, aprs, wide, beacon, beacon_line, beacon-IsValid, beacon-IsPrintable,
}

abbrev cfg : Config
cfg = record config_zero { tx_queue_len = 2; tx_packet_ttl_ms = 300; tx_busy_timeout_ms = 100 }

abbrev ops : List Op
ops = push (1 ∷ []) 5 ∷ push (2 ∷ []) 6 ∷ push (3 ∷ []) 7 ∷ pop ∷ push (4 ∷ []) 8 ∷ []

-- The third push is refused, the fourth finds the room that the pop made.
contents-full : contents (run cfg queue_init ops) ≡ new_item (2 ∷ []) 6 ∷ new_item (4 ∷ []) 8 ∷ []
unfolding contents run queue_push queue_pop
contents-full = refl

run_refines_example :
    IsValid (run cfg queue_init ops)
    × (contents (run cfg queue_init ops) ≡ fifo cfg (contents queue_init) ops)
run_refines_example = run_refines cfg ops queue_init queue_init-IsValid.0

abbrev one : Bytes
one = 1 ∷ []

queue_push_refines_example :
    ((queue_push queue_init cfg one 5 ≡ fail err_format)
      × ((length one ≡ 0) ⊎ (tx_max < length one)))
    ⊎ ((queue_push queue_init cfg one 5 ≡ fail err_nospace)
        × (queue_limit cfg ≤ length (contents queue_init)))
    ⊎ ((q' : TxQueue) × (queue_push queue_init cfg one 5 ≡ ok q')
        × Pushed cfg queue_init (new_item one 5) q')
queue_push_refines_example = queue_push_refines queue_init cfg one 5 queue_init-IsValid.0

abbrev full : TxQueue
full = run cfg queue_init ops

full-IsValid : IsValid full
full-IsValid = (run_refines cfg ops queue_init queue_init-IsValid.0).0

abbrev stale : Item
stale = record { packet = 1 ∷ []; queued_ms = 5; tx_wait_start_ms = 20 }

head_decision-Justified_example : Justified cfg true stale 130 (head_decision cfg true stale 130)
head_decision-Justified_example = head_decision-Justified cfg true stale 130

waits : (head_decision cfg true (new_item (1 ∷ []) 5) 10).0 ≡ wait
unfolding head_decision
waits = refl

head_decision_timeout_example :
    (head_decision cfg true (polled cfg (new_item (1 ∷ []) 5) (10 ∷ 60 ∷ 105 ∷ [])) 110).0 ≡ drop
head_decision_timeout_example =
    head_decision_timeout cfg (new_item (1 ∷ []) 5) 10 (60 ∷ 105 ∷ []) 110 (omega arith) refl
      (omega arith) waits

abbrev beacon_frame : Kiss.Frame
beacon_frame = record { port = 0; command = 0; payload = frame_bytes beacon }

handle_frame-Effect_example :
    Effect cfg 9 queue_init beacon_frame
      (handle_frame cfg 9 params_init stats_init queue_init beacon_frame).1
handle_frame-Effect_example =
    handle_frame-Effect cfg 9 params_init stats_init queue_init beacon_frame queue_init-IsValid.0

room : length (contents queue_init) < queue_limit cfg
unfolding contents
room = omega arith

handle_data_frame_delivers_example :
    let r = handle_data_frame cfg 9 stats_init queue_init (frame_bytes beacon) in
    (r.result ≡ ok tt)
    × IsValid r.queue
    × (contents r.queue ≡ contents queue_init ++ new_item (hdr ++ beacon_line) 9 ∷ [])
handle_data_frame_delivers_example =
    handle_data_frame_delivers cfg 9 stats_init queue_init (frame_bytes beacon) beacon
      queue_init-IsValid.0
      (decode_ui-frame_bytes aprs station (wide ∷ []) (codes ">hi") beacon-IsValid)
      beacon-IsPrintable (omega arith) refl room

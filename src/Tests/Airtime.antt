-- ===== src/Tests/Airtime.antt =====
-- bridge_loraham.c at fixed inputs: two packets wait, the first of them expired.
use loraham_kiss_tnc.Base.{
  ℕ, ◌<◌, ◌≡◌, refl, true, false, List, [], ◌∷◌, none, some, ok, inl, inr, OnSome, Ends, arith,
  Option, Bool,
}
use loraham_kiss_tnc.Bridge.Conf.{ConfState, conf_state_init, flags_init}
use loraham_kiss_tnc.Bridge.Radio.{
  Env, World, tuned, wrote, logged, restore_rx_freq, tx_shift_needed,
}
use loraham_kiss_tnc.Bridge.Radio.Restore.{Restored, radio_freq, restore_rx_freq-Restored}
use loraham_kiss_tnc.Bridge.Shared.{Config, config_zero, stats_init}
use loraham_kiss_tnc.Bridge.Transmit.{Fds, Watch, Look, Drained, drain}
use loraham_kiss_tnc.Bridge.Links.{succeeded}
use loraham_kiss_tnc.Bridge.Transmit.Drain.{Accounted, drain-Accounted}
use loraham_kiss_tnc.Bridge.Transmit.Returns.{drain_total}
use loraham_kiss_tnc.Bridge.Transmit.Sends.{TimePasses}
use loraham_kiss_tnc.Bridge.TxQueue.{
  TxQueue, queue_init, queue_head, queue_push, queue_pop, head_decision,
}
use loraham_kiss_tnc.Bridge.TxQueue.Fifo.{IsValid, Op, push, run, run_refines, queue_init-IsValid}
use loraham_kiss_tnc.Bridge.Wait.{Waiting, Round, interrupted, received, lapsed, wait_tx_result}
use loraham_kiss_tnc.Bridge.Wait.Deadline.{Done, wait_tx_result_total}
use loraham_kiss_tnc.Loraham.Framed.{state_init, decode_byte, decode_tx_result}
use loraham_kiss_tnc.Loraham.Framed.Stream

-- Receive on 433.775 MHz, send on 433.9 MHz.
abbrev rx : ℕ
rx = 433775000000000

abbrev tx : ℕ
tx = 433900000000000

abbrev pub cfg : Config
cfg = record config_zero {
  tx_queue_len = 4;
  tx_packet_ttl_ms = 300;
  tx_busy_timeout_ms = 100;
  tx_settle_ms = 20;
  rx_freq = some rx;
  tx_freq = some tx;
}

-- The sockets take everything, but the CONF socket refuses the first return to the receive frequency.
abbrev pub env : Env
env = record {
  conf_accepts = λ t freq. elim t [ logged b p ∷ t' ↦ false | _ ↦ true ];
  sleeps = λ t ms. true;
  data_accepts = λ t p. true;
}

abbrev conf : ConfState
conf = record conf_state_init {
  flags = record flags_init { have_status = true; txresult_known = true; txresult_enabled = true };
}

abbrev pub world : World
world = record { stats = stats_init; sent = []; conf = conf; frames = state_init; trace = [] }

-- A result with status 0, in two reads.
abbrev rounds : List Round
rounds =
    record { stop = false; now = 510; event = received (4 ∷ 4 ∷ []) }
    ∷ record { stop = false; now = 515; event = interrupted }
    ∷ record { stop = false; now = 520; event = received (0 ∷ 0 ∷ 0 ∷ 1 ∷ 0 ∷ []) }
    ∷ record { stop = false; now = 700; event = interrupted }
    ∷ []

abbrev pub watch : Watch
watch = record {
  start = 500;
  later = 500;
  rounds = rounds;
  conf_rounds = record { stop = false; now = 1000; event = lapsed } ∷ [];
}

abbrev fds : Fds
fds = record { conf_open = true; data_open = true; client = none }

abbrev pub looks : ℕ → Look
looks k = record { conf_read = record { chunks = []; still_open = true }; now = 500 }

abbrev ops : List Op
ops = push (1 ∷ []) 100 ∷ push (2 ∷ []) 400 ∷ push (3 ∷ []) 450 ∷ []

abbrev queue : TxQueue
queue = run cfg queue_init ops

queue-IsValid : IsValid queue
queue-IsValid = (run_refines cfg ops queue_init queue_init-IsValid.0).0

abbrev on_air_of : Option Drained → Option (List ℕ)
on_air_of none = none
on_air_of (some d) = d.on_air

-- The first packet is given up, the second is sent.
second : on_air_of (drain 1025 env cfg fds watch looks 0 4 world queue) ≡ some (2 ∷ [])
unfolding drain run queue_head queue_push head_decision queue_pop decode_byte decode_tx_result
second = refl

drain-Accounted_example :
    OnSome (Accounted cfg rx world.trace queue) (drain 1025 env cfg fds watch looks 0 4 world queue)
drain-Accounted_example =
    drain-Accounted 1025 env cfg fds watch looks rx refl (omega arith) 0 4 world queue queue-IsValid
      tt

-- The daemon's socket refuses every config line behind the first: the radio stays on the transmit
-- frequency, and the call fails.
abbrev deaf : Env
deaf = record env { conf_accepts = λ t freq. elim t [ [] ↦ true | _ ↦ false ] }

radio_of : Option Drained → Option ℕ × Bool
radio_of none = (none, true)
radio_of (some d) = (radio_freq d.world.trace, succeeded d.result)

parked : radio_of (drain 1025 deaf cfg fds watch looks 0 4 world queue) ≡ (some tx, false)
unfolding radio_of drain run queue_head queue_push head_decision queue_pop decode_byte
    decode_tx_result
parked = refl

state_init-IsValid : Stream.IsValid state_init
state_init-IsValid = record {
  header_le = omega arith;
  len_le = omega arith;
  partial = λ h. absurd (omega (arith, h));
  fresh = λ _. refl;
}

watch-TimePasses : TimePasses cfg watch
watch-TimePasses = record {
  for_result = inr (inr (inr (inl refl)));
  late = 1000;
  past_start = omega arith;
  past_busy = omega arith;
  for_conf = inl (omega arith);
}

few : queue.count < 4
unfolding run queue_push
few = omega arith

drain_total_example : (d : Drained) × (drain 1025 env cfg fds watch looks 0 4 world queue ≡ some d)
drain_total_example =
    drain_total 1025 env cfg fds watch looks 0 4 world queue (omega arith) watch-TimePasses
      state_init-IsValid few

abbrev waits : Waiting
waits = record {
  stats = stats_init;
  sent = [];
  frames = state_init;
  client = none;
  client_error = ok tt;
}

wait_tx_result_total_example : Ends Done (wait_tx_result 1025 600 waits rounds)
wait_tx_result_total_example =
    wait_tx_result_total 1025 600 (omega arith) rounds waits state_init-IsValid
      (inr (inr (inr (inl refl))))

-- Behind a transmission, the radio is on the transmit frequency.
abbrev away : World
away = record world { trace = logged true (2 ∷ []) ∷ wrote (2 ∷ []) true ∷ tuned tx true ∷ [] }

shift : tx_shift_needed cfg ≡ true
unfolding tx_shift_needed
shift = refl

restore_rx_freq-Restored_example : Restored rx away (restore_rx_freq env cfg true away)
restore_rx_freq-Restored_example = restore_rx_freq-Restored env cfg true away rx refl shift

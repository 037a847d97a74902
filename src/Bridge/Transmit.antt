-- ===== src/Bridge/Transmit.antt =====
-- bridge_loraham.c: a packet's way to the daemon, bridge_loraham_send_packet_with_client, and the loop
-- that empties the queue, bridge_loraham_tx_queue_drain_with_client. The loop has its CONF state and
-- frame decoder, as bridge.c calls it. `fuel` is the bound on the frames' loops of Bridge/Egress, and
-- on the rounds of the drain; `none` is fuel that ran out, or a wait that its rounds do not end.
pub mod Airtime
pub mod Actions
pub mod Head
pub mod Drain
pub mod Return
pub mod Packet
pub mod Returns
pub mod Sends
pub mod Closed
use loraham_kiss_tnc.Base.{
  ℕ, zero, suc, ◌+◌, and_then, Bool, true, false, not, ◌&&◌, ◌||◌, List, [], ◌∷◌, Option, none,
  some, ◌==◌, if◌then◌else◌, Bytes, length, set, Code, err, err_format, err_conf_socket,
  err_tx_result, err_tx_socket, err_unsupported, Result, ok, fail,
}
use loraham_kiss_tnc.Bridge.Conf.{ConfState, txresult_on}
use loraham_kiss_tnc.Bridge.Egress.{Client}
use loraham_kiss_tnc.Bridge.Radio.{
  Env, World, wrote, logged, tx_shift_needed, sleep_ms, send_config_freq, restore_rx_freq,
}
use loraham_kiss_tnc.Bridge.Shared.{Config, bump}
use loraham_kiss_tnc.Bridge.TxQueue.{
  Item, TxQueue, wait, send, drop, queue_head, queue_pop, head_decision,
}
use loraham_kiss_tnc.Bridge.Wait.{
  Waiting, Round, ConfRound, Available, read_available, wait_tx_result, wait_tx_complete,
}
use loraham_kiss_tnc.Loraham.Framed.{TxResult}

-- The sockets: whether the CONF and the DATA socket are connected, and the client.
pub record Fds : Type 0 where
  pub conf_open : Bool
  pub data_open : Bool
  pub client : Client

-- What the waits behind a packet see: the clock at their start and, for the wait on the CONF lines,
-- when its first loop has ended, and the rounds of either wait.
pub record Watch : Type 0 where
  pub start : ℕ
  pub later : ℕ
  pub rounds : List Round
  pub conf_rounds : List ConfRound

-- What a call leaves: the world, its result, and whether the packet was written.
pub record Sending : Type 0 where
  pub world : World
  pub result : Result (Unit {0})
  pub written : Bool

abbrev pub unsent : World → Code → Sending
unsent w e = record { world = w; result = fail e; written = false }

abbrev pub sent_with : World × Result (Unit {0}) → Sending
sent_with (w, r) = record { world = w; result = r; written = true }

abbrev pub count_drop : World → World
count_drop w = record w { stats = record w.stats { loraham_drop = bump w.stats.loraham_drop } }

abbrev pub count_tx : World → World
count_tx w = record w { stats = record w.stats { loraham_tx = bump w.stats.loraham_tx } }

abbrev pub count_unconfirmed : World → World
count_unconfirmed w = record w {
  stats = record w.stats { tx_unconfirmed = bump w.stats.tx_unconfirmed };
}

abbrev pub rflog_tx : Bool → Bytes → World → World
rflog_tx confirmed packet w = record w { trace = logged confirmed packet ∷ w.trace }

abbrev pub start_waiting : Client → World → Waiting
start_waiting client w = record {
  stats = w.stats;
  sent = w.sent;
  frames = w.frames;
  client = client;
  client_error = ok tt;
}

abbrev pub waited : World → Waiting → World
waited w x = record w { stats = x.stats; sent = x.sent; frames = x.frames }

module _ (env : Env) (cfg : Config) (conf_open : Bool) (packet : Bytes) where
  -- Behind a restored receive frequency, the transmission is counted.
  abbrev pub count_result :
      Result (Unit {0}) → Bool → World × Result (Unit {0}) → World × Result (Unit {0})
  count_result result sent_ok (w, fail e) = (w, fail e)
  count_result result true (w, ok u) = (count_tx w, result)
  count_result result false (w, ok u) = (count_drop w, result)

  -- Behind the wait for a result: the log comes before the restore, whose failure ends the call.
  unfoldable pub confirmed_end : World → Waiting × Result TxResult → World × Result (Unit {0})
  unfolding restore_rx_freq
  confirmed_end w (x, fail e) = (
    (restore_rx_freq env cfg conf_open (rflog_tx false packet (count_unconfirmed (waited w x)))).0,
    fail err_tx_result,
  )
  confirmed_end w (x, ok result) = elim (result.status == 0) [
    | true ↦
        count_result x.client_error true
          (restore_rx_freq env cfg conf_open (rflog_tx true packet (waited w x)))
    | false ↦ count_result x.client_error false (restore_rx_freq env cfg conf_open (waited w x))
  ]

  -- Behind the wait on the CONF lines.
  unfoldable pub fallback_end : World → ConfState × Result (Unit {0}) → World × Result (Unit {0})
  unfolding restore_rx_freq sleep_ms
  fallback_end w (conf, ok u) =
      count_result (ok tt) true
        (restore_rx_freq env cfg conf_open (rflog_tx true packet (record w { conf = conf })))
  fallback_end w (conf, fail e) =
      let slept =
        (sleep_ms env (count_unconfirmed (record w { conf = conf })) cfg.tx_return_ms).0 in
      count_result (ok tt) true (restore_rx_freq env cfg conf_open (rflog_tx false packet slept))

  -- Behind the write.
  unfoldable pub after_write : ℕ → Client → Watch → World → Option (World × Result (Unit {0}))
  unfolding wait_tx_result wait_tx_complete confirmed_end fallback_end
  after_write fuel client watch w = elim (txresult_on w.conf) [
    | true ↦
        and_then
          (wait_tx_result fuel (watch.start + cfg.tx_busy_timeout_ms) (start_waiting client w)
            watch.rounds)
          (λ r. some (confirmed_end w r))
    | false ↦
        and_then
          (if conf_open
            then wait_tx_complete cfg w.conf watch.start watch.later watch.conf_rounds
            else some (w.conf, fail err_unsupported))
          (λ r. some (fallback_end w r))
  ]

  -- The write, with the radio where the packet is to be sent.
  unfoldable pub write_packet : ℕ → Client → Watch → World → Option Sending
  unfolding after_write
  write_packet fuel client watch w =
      let w' : World = record w {
        trace = wrote packet (env.data_accepts w.trace packet) ∷ w.trace;
      } in
      elim (env.data_accepts w.trace packet) [
        | true ↦ and_then (after_write fuel client watch w') (λ r. some (sent_with r))
        | false ↦
            let slept = (sleep_ms env (count_drop w') cfg.tx_return_ms).0 in
            some (unsent (restore_rx_freq env cfg conf_open slept).0 err_tx_socket)
      ]

  -- A stop during the settle time: the packet is not sent.
  abbrev pub stopped : World × Result (Unit {0}) → Sending
  stopped (w, ok u) = unsent w err
  stopped (w, fail e) = unsent w e

  unfoldable pub shift_and_write : ℕ → Client → Watch → World → ℕ → Option Sending
  unfolding write_packet
  shift_and_write fuel client watch w tx =
      let (w', r) = send_config_freq env conf_open w tx in
      elim r [
        | fail e ↦ some (unsent (count_drop w') e)
        | ok u ↦
            let (w'', settled) = sleep_ms env w' cfg.tx_settle_ms in
            elim settled [
              | true ↦ write_packet fuel client watch w''
              | false ↦ some (stopped (restore_rx_freq env cfg conf_open w''))
            ]
      ]

-- bridge_loraham_send_packet_with_client.
unfoldable pub send_packet : ℕ → Env → Config → Fds → Watch → World → Bytes → Option Sending
unfolding shift_and_write
send_packet fuel env cfg fds watch w packet =
    if length packet == 0
    then some (unsent w err)
    else if not fds.data_open
    then some (unsent (count_drop w) err)
    else elim cfg.tx_freq [
      | none ↦ some (unsent (count_drop w) err_format)
      | some tx ↦ elim cfg.rx_freq [
        | none ↦ some (unsent (count_drop w) err_format)
        | some rx ↦ elim (tx_shift_needed cfg) [
          | true ↦ shift_and_write env cfg fds.conf_open packet fuel fds.client watch w tx
          | false ↦ write_packet env cfg fds.conf_open packet fuel fds.client watch w
        ]
      ]
    ]

-- What the drain sees in a round: what is read from the CONF socket, and the clock.
pub record Look : Type 0 where
  pub conf_read : Available
  pub now : ℕ

-- What the drain leaves: the world, the queue, its result, and the packet that it wrote, if any.
pub record Drained : Type 0 where
  pub world : World
  pub queue : TxQueue
  pub result : Result (Unit {0})
  pub on_air : Option Bytes

abbrev pub idle : World → TxQueue → Result (Unit {0}) → Drained
idle w q r = record { world = w; queue = q; result = r; on_air = none }

-- Behind the call that sends the head.
abbrev pub sent_head : TxQueue → Bytes → Sending → Drained
sent_head q packet s = record {
  world = s.world;
  queue = elim s.result [ ok u ↦ queue_pop q | fail e ↦ if s.written then queue_pop q else q ];
  result = s.result;
  on_air = if s.written then some packet else none;
}

-- The head with the decision's changes, in its place in the ring.
abbrev pub store_head : TxQueue → Item → TxQueue
store_head q item = record q { items = set q.items q.head item }

-- Why a round ends the call before it looks at the clock: the CONF socket is lost, the daemon has
-- told no status yet, or it has TX_RESULT off.
abbrev pub not_ready : Bool → ConfState × Result (Unit {0}) → Option (Result (Unit {0}))
not_ready conf_open (st, fail e) = some (ok tt)
not_ready conf_open (st, ok u) =
    if conf_open && not st.flags.have_status
    then some (ok tt)
    else if st.flags.txresult_known && not st.flags.txresult_enabled
    then some (fail err_conf_socket)
    else none

unfoldable pub read_conf : Bool → ConfState → Look → ConfState × Result (Unit {0})
unfolding read_available
read_conf conf_open st look = if conf_open then read_available st look.conf_read else (st, ok tt)

-- bridge_loraham_tx_queue_drain_with_client, its rounds counted from `k`; `looks` gives what each sees.
unfoldable pub drain :
    ℕ → Env → Config → Fds → Watch → (ℕ → Look) → ℕ → ℕ → World → TxQueue → Option Drained
unfolding send_packet read_conf
drain fuel env cfg fds watch looks k zero w q = none
drain fuel env cfg fds watch looks k (suc more) w q = elim (queue_head q) [
  | none ↦ some (idle w q (ok tt))
  | some item ↦
      let (st, r) = read_conf fds.conf_open w.conf (looks k) in
      let w' : World = record w { conf = st } in
      elim (not_ready fds.conf_open (st, r)) [
        | some result ↦ some (idle w' q result)
        | none ↦
            let (d, item') =
              head_decision cfg (fds.conf_open && st.flags.tx_busy) item (looks k).now in
            let q' = store_head q item' in
            elim d [
              | wait ↦ some (idle w' q' (ok tt))
              | drop ↦
                  drain fuel env cfg fds watch looks (suc k) more (count_drop w') (queue_pop q')
              | send ↦ elim (fds.data_open && fds.conf_open) [
                | false ↦ some (idle w' q' (ok tt))
                | true ↦
                    and_then (send_packet fuel env cfg fds watch w' item'.packet)
                      (λ s. some (sent_head q' item'.packet s))
              ]
            ]
      ]
]

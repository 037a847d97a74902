-- ===== src/Bridge/Wait.antt =====
-- bridge_loraham.c, bridge_conf.c: the waits behind a transmission, for the daemon's TX_RESULT frame or,
-- without that, for the CONF lines of a transmitter that goes busy and idle. A wait is given its
-- rounds as the system calls answer them; `none` is a wait that the rounds do not end.
pub mod Deadline
pub mod Late
use loraham_kiss_tnc.Base.{
  ℕ, ◌+◌, and_then, Bool, true, false, not, ◌&&◌, ◌||◌, List, [], ◌∷◌, Option, none, some, leb,
  ◌==◌, if◌then◌else◌, Bytes, Code, err, err_unsupported, err_client_socket, err_tx_result, Result,
  ok, fail,
}
use loraham_kiss_tnc.Bridge.Conf.{ConfState, feed}
use loraham_kiss_tnc.Bridge.Egress.{Client, handle_framed_frame}
use loraham_kiss_tnc.Bridge.Shared.{Config, Stats, bump}
use loraham_kiss_tnc.Loraham.Framed
use loraham_kiss_tnc.Loraham.Framed.{
  FramedState, TxResult, tx_result, decode_byte, decode_tx_result,
}

-- What the wait for a result works on: the counters, the bytes sent to the client, the decoder, and
-- the client with the error that ended it.
pub record Waiting : Type 0 where
  pub stats : Stats
  pub sent : List Bytes
  pub frames : FramedState
  pub client : Client
  pub client_error : Result (Unit {0})

abbrev pub count_drop : Waiting → Waiting
count_drop x = record x { stats = record x.stats { loraham_drop = bump x.stats.loraham_drop } }

abbrev pub is_client_error : Result (Unit {0}) → Bool
is_client_error (ok u) = false
is_client_error (fail err_client_socket) = true
is_client_error (fail e) = false

-- A frame that is no result goes to the client; a client whose socket fails gets no more.
unfoldable pub relay : ℕ → Waiting → Framed.Frame → Option Waiting
unfolding handle_framed_frame
relay fuel x f = and_then (handle_framed_frame fuel x.client x.stats x.sent f) (λ r.
    if is_client_error r.result
    then some (record x { stats = r.stats; sent = r.sent; client = none; client_error = r.result })
    else some (record x { stats = r.stats; sent = r.sent }))

-- What stands behind the result in the same read.
unfoldable pub read_rest : ℕ → Waiting → Bytes → Option (Waiting × Result (Unit {0}))
unfolding relay
read_rest fuel x [] = some (x, ok tt)
read_rest fuel x (b ∷ bs) =
    let (st, o) = decode_byte x.frames b in
    let x' : Waiting = record x { frames = st } in
    elim o [
      | Framed.Outcome.pending ↦ read_rest fuel x' bs
      | Framed.Outcome.dropped e ↦ some (count_drop x', fail err_tx_result)
      | Framed.Outcome.complete f ↦ elim (f.kind == tx_result) [
        | true ↦ read_rest fuel (count_drop x') bs
        | false ↦ and_then (relay fuel x' f) (λ y. read_rest fuel y bs)
      ]
    ]

abbrev pub with_result : TxResult → Waiting × Result (Unit {0}) → Waiting × Option (Result TxResult)
with_result result (x, ok u) = (x, some (ok result))
with_result result (x, fail e) = (x, some (fail e))

-- The bytes of one read; the answer is `none` while the result has not come.
unfoldable pub read_frames : ℕ → Waiting → Bytes → Option (Waiting × Option (Result TxResult))
unfolding read_rest
read_frames fuel x [] = some (x, none)
read_frames fuel x (b ∷ bs) =
    let (st, o) = decode_byte x.frames b in
    let x' : Waiting = record x { frames = st } in
    elim o [
      | Framed.Outcome.pending ↦ read_frames fuel x' bs
      | Framed.Outcome.dropped e ↦ some (count_drop x', some (fail err_tx_result))
      | Framed.Outcome.complete f ↦ elim (f.kind == tx_result) [
        | true ↦ elim (decode_tx_result f) [
          | fail e ↦ some (x', some (fail err_tx_result))
          | ok result ↦ and_then (read_rest fuel x' bs) (λ y. some (with_result result y))
        ]
        | false ↦ and_then (relay fuel x' f) (λ y. read_frames fuel y bs)
      ]
    ]

-- How select, and the read behind it, answer: `interrupted` is EINTR of either and EAGAIN of the
-- read, `quiet` a select that timed out, `broken` an error of either or the end of the stream.
pub data Event : Type 0 where
  interrupted quiet broken : Event
  received : Bytes → Event

-- A round of the loop: whether a stop was requested, the clock, and the event.
pub record Round : Type 0 where
  pub stop : Bool
  pub now : ℕ
  pub event : Event

unfoldable pub wait_tx_result : ℕ → ℕ → Waiting → List Round → Option (Waiting × Result TxResult)
unfolding read_frames
wait_tx_result fuel deadline x [] = none
wait_tx_result fuel deadline x (r ∷ rs) = elim (r.stop || leb deadline r.now) [
  | true ↦ some (x, fail err_tx_result)
  | false ↦ elim r.event [
    | interrupted ↦ wait_tx_result fuel deadline x rs
    | quiet ↦ some (x, fail err_tx_result)
    | broken ↦ some (x, fail err_tx_result)
    | received bytes ↦ and_then (read_frames fuel x bytes) (λ (y, answer). elim answer [
      | none ↦ wait_tx_result fuel deadline y rs
      | some result ↦ some (y, result)
    ])
  ]
]

-- What is read from the CONF socket until it has no more, and whether it is still open then.
pub record Available : Type 0 where
  pub chunks : List Bytes
  pub still_open : Bool

abbrev pub feed_all : ConfState → List Bytes → ConfState
feed_all st [] = st
feed_all st (chunk ∷ chunks) = feed_all (feed st chunk) chunks

unfoldable pub read_available : ConfState → Available → ConfState × Result (Unit {0})
read_available st a = (feed_all st a.chunks, if a.still_open then ok tt else fail err)

-- `lapsed` is a select that was interrupted or timed out.
pub data ConfEvent : Type 0 where
  lapsed broken : ConfEvent
  readable : Available → ConfEvent

pub record ConfRound : Type 0 where
  pub stop : Bool
  pub now : ℕ
  pub event : ConfEvent

unfoldable pub wait_read : ConfState → ConfEvent → ConfState × Result (Unit {0})
unfolding read_available
wait_read st lapsed = (st, ok tt)
wait_read st broken = (st, fail err)
wait_read st (readable a) = read_available st a

-- The first loop, up to a transmitter that is busy or was: the rounds that are left.
unfoldable pub wait_tx_start :
    ℕ → ℕ → ConfState → List ConfRound → Option (ConfState × List ConfRound × Result (Unit {0}))
unfolding wait_read
wait_tx_start deadline busy_seq st [] =
    if st.flags.tx_busy_seq == busy_seq then none else some (st, [], ok tt)
wait_tx_start deadline busy_seq st (r ∷ rs) = elim (not (st.flags.tx_busy_seq == busy_seq)) [
  | true ↦ some (st, r ∷ rs, ok tt)
  | false ↦ elim (leb deadline r.now) [
    | true ↦ some (st, rs, fail err_unsupported)
    | false ↦
        let (st', result) = wait_read st r.event in
        elim result [
          | ok u ↦ wait_tx_start deadline busy_seq st' rs
          | fail e ↦ some (st', rs, fail err)
        ]
  ]
]

-- The second loop, while the transmitter is busy.
unfoldable pub wait_tx_idle :
    ℕ → ConfState → List ConfRound → Option (ConfState × Result (Unit {0}))
unfolding wait_read
wait_tx_idle deadline st [] = if st.flags.tx_busy then none else some (st, ok tt)
wait_tx_idle deadline st (r ∷ rs) = elim st.flags.tx_busy [
  | false ↦ some (st, ok tt)
  | true ↦ elim (r.stop || leb deadline r.now) [
    | true ↦ some (st, fail err)
    | false ↦
        let (st', result) = wait_read st r.event in
        elim result [ ok u ↦ wait_tx_idle deadline st' rs | fail e ↦ some (st', fail err) ]
  ]
]

abbrev pub tx_start_wait_ms : ℕ
tx_start_wait_ms = 500

-- Both changes of the transmitter may have come in one read.
abbrev pub wait_tx_end :
    Config
    → ConfState
    → ℕ
    → ConfState × List ConfRound × Result (Unit {0})
    → Option (ConfState × Result (Unit {0}))
wait_tx_end cfg before now (st, rs, fail e) = some (st, fail e)
wait_tx_end cfg before now (st, rs, ok u) =
    if not st.flags.tx_busy
      && not (st.flags.tx_busy_seq == before.flags.tx_busy_seq)
      && not (st.flags.tx_idle_seq == before.flags.tx_idle_seq)
    then some (st, ok tt)
    else wait_tx_idle (now + cfg.tx_busy_timeout_ms) st rs

-- The clock is read at `start`, and again at `later`, when the first loop has ended.
unfoldable pub wait_tx_complete :
    Config → ConfState → ℕ → ℕ → List ConfRound → Option (ConfState × Result (Unit {0}))
unfolding wait_tx_start wait_tx_idle
wait_tx_complete cfg st start later rs =
    and_then
      (if st.flags.tx_busy
        then some (st, rs, ok tt)
        else wait_tx_start (start + tx_start_wait_ms) st.flags.tx_busy_seq st rs)
      (wait_tx_end cfg st later)

-- ===== src/Bridge/Egress.antt =====
-- bridge_rx.c: from the daemon's frames to the KISS client. The write to the client's socket is a
-- parameter: `accepts out` says whether the socket takes all the bytes `out`. The bytes handed to a
-- write that succeeded are collected in `sent`, the newest last.
pub mod Delivery
pub mod Frames
pub mod Rounds
use loraham_kiss_tnc.Base.{
  ℕ, zero, suc, and_then, Bool, true, false, ◌||◌, List, [], ◌∷◌, ◌++◌, Option, none, some, ltb,
  leb, ◌==◌, if◌then◌else◌, Bytes, length, drop, cut, Code, err, err_format, err_client_socket,
  Result, ok, fail,
}
use loraham_kiss_tnc.Ax25.{Frame}
use loraham_kiss_tnc.Ax25
use loraham_kiss_tnc.Ax25.Codec.{encode_ui}
use loraham_kiss_tnc.Bridge.Shared.{Stats, bump}
use loraham_kiss_tnc.Kiss
use loraham_kiss_tnc.Kiss.{encode_data_frame}
use loraham_kiss_tnc.Loraham.Framed
use loraham_kiss_tnc.Loraham.Framed.{FramedState, rx_packet, error_frame, decode_byte}
use loraham_kiss_tnc.Loraham.Scanner.{
  RxState, Outcome, nothing, line, failed, rx_state_init, extract_tnc2,
}
use loraham_kiss_tnc.Tnc2.{max_line, parse_line}

-- The counters, what the client was sent, and the call's result.
pub record Reply : Type 0 where
  pub stats : Stats
  pub sent : List Bytes
  pub result : Result (Unit {0})

abbrev pub fails : Stats → List Bytes → Code → Reply
fails s sent e = record { stats = s; sent = sent; result = fail e }

-- The text of a char buffer: what stands before the first NUL.
abbrev pub c_string : Bytes → Bytes
c_string bytes = (cut 0 bytes).0

abbrev pub meta_len : ℕ
meta_len = 4

-- The client's socket; `none` where no client is connected.
abbrev pub Client : Type 0
Client = Option (Bytes → Bool)

module _ (accepts : Bytes → Bool) where
  unfoldable pub write_kiss : Stats → List Bytes → Bytes → Reply
  write_kiss s sent kiss_raw =
      if accepts kiss_raw
      then record {
        stats = record s { kiss_tx = bump s.kiss_tx };
        sent = sent ++ kiss_raw ∷ [];
        result = ok tt;
      }
      else fails (record s { kiss_drop = bump s.kiss_drop }) sent err_client_socket

  unfoldable pub send_ax25 : Stats → List Bytes → Bytes → Reply
  unfolding write_kiss
  send_ax25 s sent ax25_raw = elim (encode_data_frame ax25_raw Kiss.max_frame) [
    | ok kiss_raw ↦ write_kiss s sent kiss_raw
    | fail e ↦ fails (record s { kiss_drop = bump s.kiss_drop }) sent e
  ]

  unfoldable pub send_frame : Stats → List Bytes → Frame → Reply
  unfolding send_ax25
  send_frame s sent f = elim (encode_ui f Ax25.max_frame) [
    | ok ax25_raw ↦ send_ax25 (record s { ax25_tx = bump s.ax25_tx }) sent ax25_raw
    | fail e ↦ fails (record s { ax25_drop = bump s.ax25_drop }) sent e
  ]

  unfoldable pub send_tnc2_to_kiss_client : Stats → List Bytes → Bytes → Reply
  unfolding send_frame
  send_tnc2_to_kiss_client s sent tnc2 = elim (parse_line tnc2) [
    | ok f ↦ send_frame (record s { tnc2_rx = bump s.tnc2_rx }) sent f
    | fail e ↦ fails (record s { tnc2_drop = bump s.tnc2_drop }) sent e
  ]

  -- One round of the drain loop: the scanner's state, the reply, and whether the loop goes on.
  abbrev pub round_line : RxState → Reply → RxState × Reply × Bool
  round_line st r = (st, r, elim r.result [ ok _ ↦ ltb 0 (length st.pending) | fail _ ↦ false ])

  abbrev pub chunk_round : Stats → List Bytes → RxState × Outcome → RxState × Reply × Bool
  chunk_round s sent (st, nothing) =
      round_line st (record { stats = s; sent = sent; result = ok tt })
  chunk_round s sent (st, failed e) =
      round_line st (fails (record s { loraham_drop = bump s.loraham_drop }) sent e)
  chunk_round s sent (st, line text) =
      round_line st (
        send_tnc2_to_kiss_client (record s { loraham_rx = bump s.loraham_rx }) sent (c_string text))

  -- The loop over the packets of a chunk on fuel, `none` if that runs out; each round but the
  -- first passes no data.
  unfoldable pub handle_loraham_chunk :
      ℕ → Stats → List Bytes → RxState → Bytes → Option (RxState × Reply)
  unfolding send_tnc2_to_kiss_client
  handle_loraham_chunk zero s sent st bytes = none
  handle_loraham_chunk (suc fuel) s sent st bytes =
      let (st', r, more) = chunk_round s sent (extract_tnc2 st bytes max_line) in
      let rest = handle_loraham_chunk fuel r.stats r.sent st' [] in
      if more then rest else some (st', r)

  -- A scanner of its own for one packet: the packet's bytes, then an idle call. A packet in which no
  -- text was found is an error.
  abbrev pub check_found : ℕ → RxState × Reply → Reply
  check_found before (st, r) = elim r.result [
    | fail e ↦ r
    | ok _ ↦
        if r.stats.loraham_rx == before
        then fails (record r.stats { loraham_drop = bump r.stats.loraham_drop }) r.sent err_format
        else r
  ]

  abbrev pub idle_chunk : ℕ → RxState × Reply → Option (RxState × Reply)
  idle_chunk fuel (st, r) = elim r.result [
    | fail e ↦ some (st, r)
    | ok _ ↦ handle_loraham_chunk fuel r.stats r.sent st []
  ]

  unfoldable pub send_loraham_packet : ℕ → Stats → List Bytes → Bytes → Option Reply
  unfolding handle_loraham_chunk
  send_loraham_packet fuel s sent packet =
      and_then (and_then (handle_loraham_chunk fuel s sent rx_state_init packet) (idle_chunk fuel))
        (λ done. some (check_found s.loraham_rx done))

-- A daemon frame without metadata: four bytes of RSSI and SNR stand before the packet.
unfoldable pub handle_framed_frame : ℕ → Client → Stats → List Bytes → Framed.Frame → Option Reply
unfolding send_loraham_packet
handle_framed_frame fuel client s sent f =
    let dropped_one : Reply = record {
      stats = record s { loraham_drop = bump s.loraham_drop };
      sent = sent;
      result = ok tt;
    } in
    if f.kind == rx_packet
    then elim client [
      | none ↦ some dropped_one
      | some accepts ↦
          if ltb (length f.payload) meta_len
          then some dropped_one
          else send_loraham_packet accepts fuel s sent (drop meta_len f.payload)
    ]
    else if f.kind == error_frame
    then some (record {
      stats = record s { loraham_framed_errors = bump s.loraham_framed_errors };
      sent = sent;
      result = ok tt;
    })
    else some dropped_one

-- What one byte of the stream leads to, the counters and the client as they are left.
abbrev pub handle_outcome : ℕ → Client → Stats → List Bytes → Framed.Outcome → Option Reply
handle_outcome fuel client s sent Framed.Outcome.pending =
    some (record { stats = s; sent = sent; result = ok tt })
handle_outcome fuel client s sent (Framed.Outcome.complete f) =
    handle_framed_frame fuel client s sent f
handle_outcome fuel client s sent (Framed.Outcome.dropped e) =
    some (fails (record s { loraham_drop = bump s.loraham_drop }) sent e)

-- The bytes of one read from the daemon; the first error ends the call.
unfoldable pub handle_framed_chunk :
    ℕ → Client → Stats → List Bytes → FramedState → Bytes → Option (FramedState × Reply)
unfolding handle_framed_frame
handle_framed_chunk fuel client s sent st [] =
    some (st, record { stats = s; sent = sent; result = ok tt })
handle_framed_chunk fuel client s sent st (b ∷ bs) =
    let (st', o) = decode_byte st b in
    and_then (handle_outcome fuel client s sent o) (λ r. elim r.result [
      | fail e ↦ some (st', r)
      | ok _ ↦ handle_framed_chunk fuel client r.stats r.sent st' bs
    ])

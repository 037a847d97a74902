-- ===== src/Bridge/Egress/Rounds.antt =====
-- bridge_rx.c: the loops over a read from the daemon.
use loraham_kiss_tnc.Base.{
  ℕ, zero, suc, ◌+◌, ◌-◌, ◌≤◌, ◌<◌, ◌≡◌, refl, ap, ◌&&◌, Bool, true, false, List, [], ◌∷◌, ◌++◌,
  Option, none, some, ltb, ◌==◌, if_intro, Bool-cases, inl, inr, Bytes, length, length-append, drop,
  length-drop, ok, fail, arith,
}
use loraham_kiss_tnc.Bridge.Shared.{Stats}
use loraham_kiss_tnc.Bridge.Egress.{
  Reply, meta_len, Client, round_line, chunk_round, handle_loraham_chunk, check_found, idle_chunk,
  send_loraham_packet, handle_framed_frame, handle_outcome, handle_framed_chunk,
}
use loraham_kiss_tnc.Loraham.Framed
use loraham_kiss_tnc.Loraham.Framed.{rx_packet, error_frame, FramedState, decode_byte}
use loraham_kiss_tnc.Loraham.Framed.Stream
use loraham_kiss_tnc.Loraham.Scanner.{
  RxState, Outcome, nothing, line, failed, Core, Step, next, stop, reset, rx_state_init, emit_tnc2,
  scan_byte, scan, settle, at_end, extract_tnc2,
}
use loraham_kiss_tnc.Tnc2.{max_line}

settle-pending : (s : Step) → (settle s).0.pending ≡ []
settle-pending (next st) = refl
settle-pending (stop st o) = refl
settle-pending (reset e) = refl

at_end-pending : (size : ℕ) (flush : Bool) (st : Core) → (at_end size flush st).0.pending ≡ []
at_end-pending size true st = settle-pending (emit_tnc2 size true false st)
at_end-pending size false st = refl

-- A scan leaves nothing pending, or less than it was given.
scan-pending :
    (size : ℕ) (flush : Bool) (bs : Bytes) (st : Core)
    → length (scan size (at_end size flush) st bs).0.pending ≤ length bs - 1
unfolding scan
scan-pending size flush [] st = rw (at_end-pending size flush st) (omega arith)
scan-pending size flush (b ∷ bs) st =
    elim (scan_byte size st b)
      as (λ s.
        length
          (elim s as (λ _. RxState × Outcome) [
            | next st' ↦ scan size (at_end size flush) st' bs
            | stop st' o ↦ (record { core = st'; pending = bs }, o)
            | reset e ↦ (rx_state_init, failed e)
          ]).0.pending
        ≤ length (b ∷ bs) - 1) [
          | next st' ↦ omega (arith, scan-pending size flush bs st')
          | stop st' o ↦ omega arith
          | reset e ↦ omega arith
        ]

extract_tnc2-pending :
    (st : RxState) (bs : Bytes) (size : ℕ)
    → length (extract_tnc2 st bs size).0.pending ≤ length st.pending + length bs - 1
unfolding extract_tnc2
extract_tnc2-pending st bs size =
    if_intro (λ (x : RxState × Outcome). length x.0.pending ≤ length st.pending + length bs - 1)
      (ltb (1024 - length st.pending) (length bs)) (λ _. omega arith)
      (λ _. omega (
        arith,
        scan-pending size (length bs == 0 && length st.pending == 0) (st.pending ++ bs) st.core,
        length-append st.pending bs,
      ))

module _ (accepts : Bytes → Bool) where
  round_line-more :
      (st : RxState) (r : Reply) → (round_line accepts st r).2 ≡ true → 0 < length st.pending
  round_line-more st r h = ground arith

  -- Another round is made only while bytes are pending.
  chunk_round-more :
      (s : Stats) (sent : List Bytes) (o : RxState × Outcome)
      → (chunk_round accepts s sent o).2 ≡ true
      → 0 < length (chunk_round accepts s sent o).0.pending
  chunk_round-more s sent (st, nothing) h =
      round_line-more st (chunk_round accepts s sent (st, nothing)).1 h
  chunk_round-more s sent (st, failed e) h =
      round_line-more st (chunk_round accepts s sent (st, failed e)).1 h
  chunk_round-more s sent (st, line t) h =
      round_line-more st (chunk_round accepts s sent (st, line t)).1 h

  chunk_round-state :
      (s : Stats) (sent : List Bytes) (o : RxState × Outcome)
      → (chunk_round accepts s sent o).0 ≡ o.0
  chunk_round-state s sent (st, nothing) = refl
  chunk_round-state s sent (st, failed e) = refl
  chunk_round-state s sent (st, line t) = refl

  -- The drain loop ends within as many rounds as there are bytes, pending or new, and one more, and
  -- leaves fewer bytes pending than that, if there were any.
  pub handle_loraham_chunk_total :
      (fuel : ℕ) (s : Stats) (sent : List Bytes) (st : RxState) (bytes : Bytes)
      → length st.pending + length bytes < fuel
      → (r : RxState × Reply) × (handle_loraham_chunk accepts fuel s sent st bytes ≡ some r)
        × (length r.0.pending ≤ length st.pending + length bytes - 1)
  unfolding handle_loraham_chunk
  handle_loraham_chunk_total zero s sent st bytes h = absurd (omega arith)
  handle_loraham_chunk_total (suc fuel) s sent st bytes h =
      let o = extract_tnc2 st bytes max_line in
      let round = chunk_round accepts s sent o in
      let same = ap (λ (x : RxState). length x.pending) (chunk_round-state s sent o) in
      elim (Bool-cases round.2) [
        | inl more ↦
            let (r, e, p) = handle_loraham_chunk_total fuel round.1.stats round.1.sent round.0 [] (
              omega (
                arith,
                same,
                extract_tnc2-pending st bytes max_line,
                chunk_round-more s sent o more,
              )) in
            (r, rw more e, omega (arith, p, same, extract_tnc2-pending st bytes max_line))
        | inr done ↦ (
          (round.0, round.1),
          rw done,
          omega (arith, same, extract_tnc2-pending st bytes max_line),
        )
      ]

  idle_chunk_total :
      (fuel : ℕ) (x : RxState × Reply)
      → length x.0.pending < fuel
      → (y : RxState × Reply) × (idle_chunk accepts fuel x ≡ some y)
  idle_chunk_total fuel (st, r) h =
      elim r.result
        as (λ k.
          (y : RxState × Reply) × (elim k as (λ _. Option (RxState × Reply)) [
            | fail e ↦ some (st, r)
            | ok _ ↦ handle_loraham_chunk accepts fuel r.stats r.sent st []
          ]
            ≡ some y)) [
              | ok u ↦
                  let (y, e, p) =
                    handle_loraham_chunk_total fuel r.stats r.sent st [] (omega (arith, h)) in
                  (y, e)
              | fail c ↦ ((st, r), refl)
            ]

  pub send_loraham_packet_total :
      (fuel : ℕ) (s : Stats) (sent : List Bytes) (packet : Bytes)
      → length packet < fuel
      → (r : Reply) × (send_loraham_packet accepts fuel s sent packet ≡ some r)
  unfolding send_loraham_packet
  send_loraham_packet_total fuel s sent packet h =
      let (x, e, p) =
        handle_loraham_chunk_total fuel s sent rx_state_init packet (omega (arith, h)) in
      let (y, f) = idle_chunk_total fuel x (omega (arith, h, p)) in
      (check_found accepts s.loraham_rx y, rw (e, f) refl)

pub handle_framed_frame_total :
    (fuel : ℕ) (client : Client) (s : Stats) (sent : List Bytes) (f : Framed.Frame)
    → length f.payload < fuel
    → (r : Reply) × (handle_framed_frame fuel client s sent f ≡ some r)
unfolding handle_framed_frame
handle_framed_frame_total fuel none s sent f h =
    let Ends : Option Reply → Type 0 = λ o. (r : Reply) × (o ≡ some r) in
    if_intro Ends (f.kind == rx_packet) (λ _. (_, refl))
      (λ _. if_intro Ends (f.kind == error_frame) (λ _. (_, refl)) (λ _. (_, refl)))
handle_framed_frame_total fuel (some accepts) s sent f h =
    let Ends : Option Reply → Type 0 = λ o. (r : Reply) × (o ≡ some r) in
    if_intro Ends (f.kind == rx_packet)
      (λ _.
        if_intro Ends (ltb (length f.payload) meta_len) (λ _. (_, refl))
          (λ _.
            send_loraham_packet_total accepts fuel s sent (drop meta_len f.payload)
              (omega (arith, h, length-drop meta_len f.payload))))
      (λ _. if_intro Ends (f.kind == error_frame) (λ _. (_, refl)) (λ _. (_, refl)))

handle_outcome_total :
    (fuel : ℕ) (client : Client) (s : Stats) (sent : List Bytes) (o : Framed.Outcome)
    → Stream.Fits o
    → 1024 < fuel
    → (r : Reply) × (handle_outcome fuel client s sent o ≡ some r)
handle_outcome_total fuel client s sent Framed.Outcome.pending fits h = (_, refl)
handle_outcome_total fuel client s sent (Framed.Outcome.complete f) fits h =
    handle_framed_frame_total fuel client s sent f (omega (arith, h, fits f refl))
handle_outcome_total fuel client s sent (Framed.Outcome.dropped e) fits h = (_, refl)

-- From a valid decoder state, a read from the daemon ends with a result and such a state, whatever bytes it holds and whatever the client's
-- socket takes: with fuel above the 1024 bytes that a frame may carry no loop runs out of it.
pub handle_framed_chunk_total :
    (client : Client) (bs : Bytes) (fuel : ℕ) (s : Stats) (sent : List Bytes) (st : FramedState)
    → 1024 < fuel
    → Stream.IsValid st
    → (r : FramedState × Reply) × (handle_framed_chunk fuel client s sent st bs ≡ some r)
      × Stream.IsValid r.0
unfolding handle_framed_chunk
handle_framed_chunk_total client [] fuel s sent st h v =
    ((st, record { stats = s; sent = sent; result = ok tt }), refl, v)
handle_framed_chunk_total client (b ∷ bs) fuel s sent st h v =
    let (r, e) =
      handle_outcome_total fuel client s sent (decode_byte st b).1 (Stream.decode_byte-Fits st b v)
        h in
    let v' = Stream.decode_byte-IsValid st b v in
    rw e
      (elim r.result
        as (λ k.
          (r' : FramedState × Reply) × (elim k as (λ _. Option (FramedState × Reply)) [
            | fail e ↦ some ((decode_byte st b).0, r)
            | ok _ ↦ handle_framed_chunk fuel client r.stats r.sent (decode_byte st b).0 bs
          ]
            ≡ some r')
          × Stream.IsValid r'.0) [
            | ok u ↦
                handle_framed_chunk_total client bs fuel r.stats r.sent (decode_byte st b).0 h v'
            | fail c ↦ (((decode_byte st b).0, r), refl, v')
          ])

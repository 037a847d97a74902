-- ===== src/Loraham/Framed/Outcomes.antt =====
-- loraham_sock.c: loraham_decode_tx_result against the bytes of a result.
use loraham_kiss_tnc.Base.{
  ℕ, ◌+◌, ◌*◌, ◌/◌, ◌%◌, ◌<◌, ◌≤◌, ◌≡◌, ◌≢◌, ap₂, not, ◌||◌, [], ◌∷◌, ◌==◌, Bytes, length, All, ok,
  fail, OnOk, guard-OnOk, err_format, arith,
}
use loraham_kiss_tnc.Loraham.Framed.{Frame, TxResult, tx_result, status_valid, decode_tx_result}

abbrev pub result_frame : TxResult → Frame
result_frame r = record {
  kind = tx_result;
  payload = r.status ∷ r.flags ∷ (r.seq % 256) ∷ (r.seq / 256) ∷ [];
}

abbrev pub Sent : Frame → TxResult → Type 0
Sent f r = (r.status ≤ 6) × (f ≡ result_frame r)

abbrev pub IsByte : ℕ → Type 0
IsByte b = b < 256

four_bytes :
    (kind a b c d : ℕ)
    → b < 256
    → c < 256
    → d < 256
    → OnOk
        (Sent (record { kind = kind; payload = a ∷ b ∷ c ∷ d ∷ [] }))
        (decode_tx_result (record { kind = kind; payload = a ∷ b ∷ c ∷ d ∷ [] }))
unfolding decode_tx_result
four_bytes kind a b c d hb hc hd =
    let f : Frame = record { kind = kind; payload = a ∷ b ∷ c ∷ d ∷ [] } in
    guard-OnOk (Sent f) (not (kind == tx_result) || not (length f.payload == 4)) err_format _
      (λ shape. guard-OnOk (Sent f) (not (status_valid a)) err_format _ (λ valid.
        let is_result : kind ≡ tx_result = ground arith in
        let lo : c ≡ (c + d * 256) % 256 = omega arith in
        let hi : d ≡ (c + d * 256) / 256 = omega arith in
        (
          ground arith,
          ap₂ (λ k p. record { kind = k; payload = p }) is_result
              (ap₂ (λ x y. a ∷ b ∷ x ∷ y ∷ []) lo hi),
        )))

other_length :
    (kind : ℕ) (payload : Bytes)
    → length payload ≢ 4
    → decode_tx_result (record { kind = kind; payload = payload }) ≡ fail err_format
unfolding decode_tx_result
other_length kind payload ne = ground arith

read_back : (r : TxResult) → r.status ≤ 6 → decode_tx_result (result_frame r) ≡ ok r
unfolding decode_tx_result
read_back r k = ground arith

accepted :
    (kind : ℕ) (payload : Bytes)
    → All IsByte payload
    → OnOk
        (Sent (record { kind = kind; payload = payload }))
        (decode_tx_result (record { kind = kind; payload = payload }))
accepted kind (a ∷ b ∷ c ∷ d ∷ []) h = four_bytes kind a b c d h.1.0 h.1.1.0 h.1.1.1.0
accepted kind [] h = rw (other_length kind [] (λ e. omega (arith, e))) tt
accepted kind (a ∷ []) h = rw (other_length kind (a ∷ []) (λ e. omega (arith, e))) tt
accepted kind (a ∷ b ∷ []) h = rw (other_length kind (a ∷ b ∷ []) (λ e. omega (arith, e))) tt
accepted kind (a ∷ b ∷ c ∷ []) h =
    rw (other_length kind (a ∷ b ∷ c ∷ []) (λ e. omega (arith, e))) tt
accepted kind (a ∷ b ∷ c ∷ d ∷ e ∷ p) h =
    rw (other_length kind (a ∷ b ∷ c ∷ d ∷ e ∷ p) (λ q. omega (arith, q))) tt

-- A result with one of the seven known states is read from its frame, and a frame of bytes that is
-- accepted as a result is the frame of that result, with one of the seven known states.
pub decode_tx_result-result_frame :
    (f : Frame) (r : TxResult)
    → All IsByte f.payload
    → r.status ≤ 6
    → (decode_tx_result (result_frame r) ≡ ok r) × OnOk (Sent f) (decode_tx_result f)
decode_tx_result-result_frame f r h k = (read_back r k, accepted f.kind f.payload h)

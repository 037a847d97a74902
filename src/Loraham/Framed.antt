-- ===== src/Loraham/Framed.antt =====
-- loraham_sock.c: the framed DATA stream. A frame is a type byte, the payload's length as two bytes,
-- low byte first, and the payload. The decoder's `header` and `payload` are the bytes stored so far,
-- so `header_len` and `payload_pos` are their lengths; `lo | hi << 8` is written `lo + hi * 256`.
pub mod Stream
pub mod Outcomes
use loraham_kiss_tnc.Base.{
  ℕ, ◌+◌, ◌*◌, ◌/◌, ◌%◌, Bool, not, ◌||◌, List, [], ◌∷◌, ◌++◌, ltb, leb, ◌==◌, if◌then◌else◌, Bytes,
  length, get_or, Code, err_long, err_format, Result, ok, fail,
}

abbrev pub max_payload : ℕ
max_payload = 1024

abbrev pub tx_max : ℕ
tx_max = 255

abbrev pub rx_packet : ℕ
rx_packet = 0x01

abbrev pub tx_packet : ℕ
tx_packet = 0x02

abbrev pub error_frame : ℕ
error_frame = 0x03

abbrev pub tx_result : ℕ
tx_result = 0x04

pub record Frame : Type 0 where
  pub kind : ℕ
  pub payload : Bytes

pub record FramedState : Type 0 where
  pub header : Bytes
  pub kind : ℕ
  pub payload_len : ℕ
  pub payload : Bytes

pub data Outcome : Type 0 where
  pending : Outcome
  complete : Frame → Outcome
  dropped : Code → Outcome

abbrev pub state_init : FramedState
state_init = record { header = []; kind = 0; payload_len = 0; payload = [] }

abbrev pub emit : ℕ → Bytes → FramedState × Outcome
emit kind payload = (state_init, complete (record { kind = kind; payload = payload }))

-- At the third header byte.
abbrev pub start_payload : Bytes → ℕ → ℕ → FramedState × Outcome
start_payload header kind n =
    if ltb max_payload n
    then (state_init, dropped err_long)
    else if n == 0
    then emit kind []
    else (record { header = header; kind = kind; payload_len = n; payload = [] }, pending)

unfoldable pub decode_byte : FramedState → ℕ → FramedState × Outcome
decode_byte st byte =
    let header = st.header ++ byte ∷ [] in
    let payload = st.payload ++ byte ∷ [] in
    if ltb (length st.header) 3
    then if ltb (length header) 3
      then (record st { header = header }, pending)
      else start_payload header (get_or header 0 0) (get_or header 1 0 + get_or header 2 0 * 256)
    else if ltb (length payload) st.payload_len
    then (record st { payload = payload }, pending)
    else emit st.kind payload

-- An outcome joined to those that follow.
abbrev pub cons_event : Outcome → List Outcome → List Outcome
cons_event pending os = os
cons_event (complete f) os = complete f ∷ os
cons_event (dropped e) os = dropped e ∷ os

-- The decoder over the bytes of one or more reads.
unfoldable pub decode_bytes : FramedState → Bytes → FramedState × List Outcome
decode_bytes st [] = (st, [])
decode_bytes st (b ∷ bs) =
    let (s, o) = decode_byte st b in let (s', os) = decode_bytes s bs in (s', cons_event o os)

-- The bytes that `loraham_send_framed_tx_packet` writes for one packet.
unfoldable pub tx_frame : Bytes → Result Bytes
tx_frame payload =
    if ltb tx_max (length payload)
    then fail err_long
    else ok (tx_packet ∷ (length payload % 256) ∷ (length payload / 256 % 256) ∷ payload)

pub record TxResult : Type 0 where
  pub status : ℕ
  pub flags : ℕ
  pub seq : ℕ

abbrev pub status_valid : ℕ → Bool
status_valid status = leb status 6

unfoldable pub decode_tx_result : Frame → Result TxResult
decode_tx_result f =
    if not (f.kind == tx_result) || not (length f.payload == 4)
    then fail err_format
    else if not (status_valid (get_or f.payload 0 0))
    then fail err_format
    else ok (record {
      status = get_or f.payload 0 0;
      flags = get_or f.payload 1 0;
      seq = get_or f.payload 2 0 + get_or f.payload 3 0 * 256;
    })

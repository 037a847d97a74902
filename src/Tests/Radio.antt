-- ===== src/Tests/Radio.antt =====
-- loraham_sock.c at fixed inputs.
use loraham_kiss_tnc.Base.{
  OnOk, ◌≡◌, refl, true, [], ◌∷◌, ◌++◌, map, All, codes, err_long, err_format, ok, fail, ◌>>=◌,
  arith,
}
use loraham_kiss_tnc.Loraham.Framed
use loraham_kiss_tnc.Loraham.Framed.{
  TxResult, tx_packet, FramedState, state_init, complete, dropped, decode_bytes, decode_byte,
  tx_frame, decode_tx_result,
}
use loraham_kiss_tnc.Loraham.Framed.Outcomes.{Sent, result_frame, decode_tx_result-result_frame}
use loraham_kiss_tnc.Loraham.Framed.Stream
use loraham_kiss_tnc.Loraham.Framed.Stream.{
  Fits, frames_bytes, decode_bytes-IsValid, decode_bytes-frames_bytes, decode_bytes_too_long,
  decode_bytes-tx_frame,
}
use loraham_kiss_tnc.Loraham.Packet.{hdr}
use loraham_kiss_tnc.Loraham.Scanner.{RxState, nothing, line, rx_state_init, extract_tnc2}
use loraham_kiss_tnc.Loraham.Scanner.Bounds
use loraham_kiss_tnc.Loraham.Scanner.Bounds.{OutcomeIsValid, extract_tnc2-IsValid}
use loraham_kiss_tnc.Loraham.Scanner.Packets.{extract_tnc2_packet}
use loraham_kiss_tnc.Tests.Data.{beacon_line}

abbrev error_text : Framed.Frame
error_text = record { kind = 3; payload = codes "busy" }

abbrev result_ok : Framed.Frame
result_ok = record { kind = 4; payload = 0 ∷ 1 ∷ 2 ∷ 1 ∷ [] }

result_decoded : decode_tx_result result_ok ≡ ok (record { status = 0; flags = 1; seq = 258 })
unfolding decode_tx_result
result_decoded = refl

result_refused :
    decode_tx_result (record { kind = 4; payload = 7 ∷ 1 ∷ 2 ∷ 1 ∷ [] }) ≡ fail err_format
unfolding decode_tx_result
result_refused = refl

-- Two packets in one call: the second waits until the next one.
two_packets :
    (extract_tnc2 rx_state_init (hdr ++ (codes "one\n" ++ (hdr ++ codes "two\n"))) 512).1
    ≡ line (codes "one")
unfolding extract_tnc2
two_packets = refl

abbrev half_header : FramedState
half_header = record { header = 1 ∷ 2 ∷ []; kind = 0; payload_len = 0; payload = [] }

half_header-IsValid : Stream.IsValid half_header
half_header-IsValid = record {
  header_le = omega arith;
  len_le = omega arith;
  partial = λ e. omega (arith, e);
  fresh = λ _. refl;
}

decode_bytes-IsValid_example :
    Stream.IsValid (decode_bytes half_header (0 ∷ 9 ∷ [])).0
    × All Fits (decode_bytes half_header (0 ∷ 9 ∷ [])).1
decode_bytes-IsValid_example = decode_bytes-IsValid half_header (0 ∷ 9 ∷ []) half_header-IsValid

decode_bytes-frames_bytes_example :
    decode_bytes state_init (frames_bytes (error_text ∷ result_ok ∷ []))
    ≡ (state_init, map complete (error_text ∷ result_ok ∷ []))
decode_bytes-frames_bytes_example =
    decode_bytes-frames_bytes (error_text ∷ result_ok ∷ []) (omega arith, (omega arith, tt))

decode_bytes_too_long_example :
    decode_bytes state_init (1 ∷ 1 ∷ 4 ∷ []) ≡ (state_init, dropped err_long ∷ [])
decode_bytes_too_long_example = decode_bytes_too_long 1 1 4 (omega arith)

decode_bytes-tx_frame_example :
    tx_frame beacon_line >>= (λ bytes. ok (decode_bytes state_init bytes))
    ≡ ok (state_init, complete (record { kind = tx_packet; payload = beacon_line }) ∷ [])
decode_bytes-tx_frame_example = decode_bytes-tx_frame beacon_line (omega arith)

-- A scanner in the middle of a text, with one byte of a header behind it.
abbrev midway : RxState
midway = record {
  core = record { buf = codes "on"; seen_header = true; hdr_len = 1 };
  pending = 0xff ∷ [];
}

midway-IsValid : Bounds.IsValid midway
midway-IsValid = record {
  core_valid = record { buf_le = omega arith; hdr_le = omega arith; clean = refl };
  pending_le = omega arith;
}

extract_tnc2-IsValid_example :
    Bounds.IsValid (extract_tnc2 midway (1 ∷ 65 ∷ []) 512).0
    × OutcomeIsValid 512 (extract_tnc2 midway (1 ∷ 65 ∷ []) 512).1
extract_tnc2-IsValid_example =
    extract_tnc2-IsValid midway (1 ∷ 65 ∷ []) 512 (omega arith) midway-IsValid

extract_tnc2_packet_example :
    (st : RxState) × (st.pending ≡ [])
    × (extract_tnc2 rx_state_init (hdr ++ beacon_line) 512 ≡ (st, nothing))
    × (extract_tnc2 st [] 512 ≡ (rx_state_init, line beacon_line))
extract_tnc2_packet_example =
    extract_tnc2_packet beacon_line 512 (omega arith) (omega arith) (omega arith) refl refl

abbrev busy : TxResult
busy = record { status = 1; flags = 2; seq = 700 }

decode_tx_result-result_frame_example :
    (decode_tx_result (result_frame busy) ≡ ok busy)
    × OnOk (Sent result_ok) (decode_tx_result result_ok)
decode_tx_result-result_frame_example =
    decode_tx_result-result_frame result_ok busy
      (omega arith, (omega arith, (omega arith, (omega arith, tt)))) (omega arith)

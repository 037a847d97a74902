-- ===== src/Tests/Receive.antt =====
-- bridge_rx.c at fixed inputs.
use loraham_kiss_tnc.Base.{
  codes, fail, err_format, ◌≡◌, refl, Bool, [], ◌∷◌, ◌++◌, Bytes, some, ok, arith,
}
use loraham_kiss_tnc.Ax25.Codec.{decode_ui}
use loraham_kiss_tnc.Bridge.Egress.{
  handle_framed_frame, Reply, handle_loraham_chunk, send_loraham_packet, handle_framed_chunk,
}
use loraham_kiss_tnc.Bridge.Egress.Delivery.{send_loraham_packet_delivers}
use loraham_kiss_tnc.Bridge.Egress.Rounds.{handle_framed_chunk_total}
use loraham_kiss_tnc.Bridge.Egress.Frames.{in_sync, handle_frames, handle_framed_chunk-frames_bytes}
use loraham_kiss_tnc.Bridge.Shared.{stats_init}
use loraham_kiss_tnc.Kiss
use loraham_kiss_tnc.Kiss.Stream.{ready, data_frame}
use loraham_kiss_tnc.Loraham.Framed.{FramedState, state_init, decode_byte}
use loraham_kiss_tnc.Loraham.Framed.Stream
use loraham_kiss_tnc.Loraham.Framed.Stream.{frames_bytes}
use loraham_kiss_tnc.Loraham.Framed
use loraham_kiss_tnc.Loraham.Packet.{hdr}
use loraham_kiss_tnc.Loraham.Scanner.{extract_tnc2}
use loraham_kiss_tnc.Tests.Data.{beacon, beacon_line, beacon-IsPrintable}
use loraham_kiss_tnc.Tnc2.RoundTrip.{as_read}

-- A socket that takes every write.
abbrev accepts : Bytes → Bool
accepts _ = Bool.true

send_loraham_packet_delivers_example :
    (r : Reply) × (ax25 : Bytes) × (out : Bytes) × (send_loraham_packet accepts 1 stats_init []
        (hdr ++ beacon_line)
      ≡ some r)
    × (r.result ≡ ok tt)
    × (r.sent ≡ [] ++ out ∷ [])
    × (Kiss.decode_bytes ready out ≡ (ready, data_frame ax25 ∷ []))
    × (decode_ui ax25 ≡ ok (as_read beacon))
send_loraham_packet_delivers_example =
    send_loraham_packet_delivers accepts beacon beacon-IsPrintable refl 0 stats_init [] refl

abbrev two : Bytes
two = hdr ++ (beacon_line ++ b'\n' ∷ beacon_line)

state_init-IsValid : Stream.IsValid state_init
state_init-IsValid = record {
  header_le = omega arith;
  len_le = omega arith;
  partial = λ e. omega (arith, e);
  fresh = λ _. refl;
}

handle_framed_chunk_total_example :
    (r : FramedState × Reply) × (handle_framed_chunk 1025
        (some accepts)
        stats_init
        []
        state_init
        (1 ∷ 4 ∷ 0 ∷ two)
      ≡ some r)
    × Stream.IsValid r.0
handle_framed_chunk_total_example =
    handle_framed_chunk_total (some accepts) (1 ∷ 4 ∷ 0 ∷ two) 1025 stats_init [] state_init
      (omega arith) state_init-IsValid

abbrev junk : Framed.Frame
junk = record { kind = 1; payload = 0 ∷ 0 ∷ 0 ∷ 0 ∷ codes "no header" }

abbrev heard : Framed.Frame
heard = record { kind = 1; payload = 0 ∷ 0 ∷ 0 ∷ 0 ∷ (hdr ++ beacon_line) }

handle_framed_chunk-frames_bytes_example :
    handle_framed_chunk 1025
      (some accepts)
      stats_init
      []
      state_init
      (frames_bytes (junk ∷ heard ∷ []))
    ≡ in_sync (handle_frames 1025 (some accepts) stats_init [] (junk ∷ heard ∷ []))
handle_framed_chunk-frames_bytes_example =
    handle_framed_chunk-frames_bytes 1025 (some accepts) (junk ∷ heard ∷ []) stats_init []
      (omega arith, (omega arith, tt))

-- A packet without the header ends the read with an error, the decoder in step with the stream, and
-- the packet behind it is not delivered.
junk_ends_read :
    handle_framed_chunk 30
      (some accepts)
      stats_init
      []
      state_init
      (frames_bytes (junk ∷ heard ∷ []))
    ≡ some (
      state_init,
      record {
        stats = record stats_init { loraham_drop = 1 };
        sent = [];
        result = fail err_format;
      },
    )
unfolding handle_framed_chunk handle_framed_frame send_loraham_packet handle_loraham_chunk
    extract_tnc2 decode_byte
junk_ends_read = refl

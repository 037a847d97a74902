-- ===== src/Bridge/Egress/Delivery.antt =====
-- bridge_rx.c: a packet of the daemon on its way to the client.
use loraham_kiss_tnc.Base.{
  sym, ℕ, suc, ◌*◌, ◌≤◌, ◌<◌, ◌≡◌, refl, ◌∙◌, ap, Bool, true, false, List, [], ◌∷◌, ◌++◌, ◌==◌,
  if◌then◌else◌, if_intro, Bytes, length, length-append, append-nil, err_format, cut-Lacks,
  all_of-Lacks, all_of_mono, Option, some, ok, fail, All, arith,
}
use loraham_kiss_tnc.Ax25.{Frame}
use loraham_kiss_tnc.Ax25
use loraham_kiss_tnc.Ax25.Address.{addr_text}
use loraham_kiss_tnc.Ax25.AddressText.{IsCanonical}
use loraham_kiss_tnc.Ax25.Codec.{decode_ui, encode_ui}
use loraham_kiss_tnc.Ax25.Valid.{FrameIsValid}
use loraham_kiss_tnc.Ax25.RoundTrip.{
  plain, frame_bytes, encode_ui-frame_bytes, decode_ui-frame_bytes, length-frame_bytes,
}
use loraham_kiss_tnc.Bridge.Shared.{Stats, bump}
use loraham_kiss_tnc.Bridge.Egress.{
  Reply, c_string, round_line, check_found, write_kiss, send_ax25, send_frame,
  send_tnc2_to_kiss_client, handle_loraham_chunk, send_loraham_packet,
}
use loraham_kiss_tnc.Kiss
use loraham_kiss_tnc.Kiss.{Decoder, encode_data_frame}
use loraham_kiss_tnc.Kiss.Wire.{wire, escape, escape_byte, encode_data_frame-wire}
use loraham_kiss_tnc.Kiss.Stream.{ready, data_frame, decode_bytes-wires}
use loraham_kiss_tnc.Loraham.Packet.{hdr}
use loraham_kiss_tnc.Loraham.Scanner.{RxState, nothing, line, rx_state_init, extract_tnc2}
use loraham_kiss_tnc.Loraham.Scanner.Packets.{is_line_byte, free_of_header, extract_tnc2_packet}
use loraham_kiss_tnc.Tnc2.{max_line, one_line}
use loraham_kiss_tnc.Tnc2.Text.{
  IsPrintable, plain-IsCanonical, line_text, length-line_text, length-one_line,
}
use loraham_kiss_tnc.Tnc2.RoundTrip.{is_line_char, line_text-all_of, as_read, parse_line-line_text}

All-valid : (path : List Ax25.Addr) → All IsCanonical path → All Ax25.AddrIsValid path
All-valid [] h = tt
All-valid (a ∷ path) h = (h.0.valid, All-valid path h.1)

as_read-IsValid : (f : Frame) → IsPrintable f → FrameIsValid (as_read f)
as_read-IsValid f v = record {
  dst_valid = (plain-IsCanonical f.dst v.dst_canonical).valid;
  src_valid = (plain-IsCanonical f.src v.src_canonical).valid;
  path_valid = All-valid f.path v.path_canonical;
  path_le = v.path_le;
  payload_le = omega (arith, v.payload_le, length-one_line f.payload);
}

length-escape_byte : (b : ℕ) → length (escape_byte b) ≤ 2
unfolding escape_byte
length-escape_byte b = ground arith

length-escape : (bs : Bytes) → length (escape bs) ≤ 2 * length bs
length-escape [] = omega arith
length-escape (b ∷ bs) =
    omega (arith, length-append (escape_byte b) (escape bs), length-escape_byte b, length-escape bs)

length-as_read : (f : Frame) → IsPrintable f → length (frame_bytes (as_read f)) ≤ 328
length-as_read f v =
    omega
      (arith, length-frame_bytes (as_read f), v.path_le, v.payload_le, length-one_line f.payload)

encode_ui-as_read :
    (f : Frame)
    → IsPrintable f
    → encode_ui (as_read f) Ax25.max_frame ≡ ok (frame_bytes (as_read f))
encode_ui-as_read f v =
    encode_ui-frame_bytes (as_read f) Ax25.max_frame (as_read-IsValid f v)
    ∙ ground (arith, length-frame_bytes (as_read f), length-as_read f v)

encode_data_frame-as_read :
    (f : Frame)
    → IsPrintable f
    → encode_data_frame (frame_bytes (as_read f)) Kiss.max_frame
      ≡ ok (wire (frame_bytes (as_read f)))
encode_data_frame-as_read f v =
    encode_data_frame-wire (frame_bytes (as_read f)) Kiss.max_frame
    ∙ ground (
      arith,
      length-append (escape (frame_bytes (as_read f))) (Kiss.fend ∷ []),
      length-escape (frame_bytes (as_read f)),
      length-as_read f v,
    )

line_text-0 : (f : Frame) → 0 < length (line_text f)
line_text-0 f = omega (arith, length-append (addr_text (plain f.src)) _)

bump_ne : (n : ℕ) → (bump n == n) ≡ false
bump_ne n = ground arith

-- What a delivery leaves behind.
record Delivered (s : Stats) (sent : List Bytes) (f : Frame) (r : Reply) : Type 0 where
  done : r.result ≡ ok tt
  output : r.sent ≡ sent ++ wire (frame_bytes (as_read f)) ∷ []
  counted : r.stats.loraham_rx ≡ s.loraham_rx

module _ (accepts : Bytes → Bool) (f : Frame) (v : IsPrintable f)
    (taken : accepts (wire (frame_bytes (as_read f))) ≡ true) where
  send_tnc2-Delivered :
      (s : Stats) (sent : List Bytes)
      → Delivered s sent f (send_tnc2_to_kiss_client accepts s sent (line_text f))
  unfolding send_tnc2_to_kiss_client
  send_tnc2-Delivered s sent =
      rw
        (
          parse_line-line_text f v,
          send_tnc2_to_kiss_client,
          encode_ui-as_read f v,
          send_frame,
          encode_data_frame-as_read f v,
          send_ax25,
          taken,
          write_kiss,
        )
        (record { done = refl; output = refl; counted = refl })

  c_string-line_text : c_string (line_text f) ≡ line_text f
  c_string-line_text =
      ap (λ (p : Bytes × Option Bytes). p.0)
        (cut-Lacks 0 (line_text f)
          (all_of-Lacks is_line_char 0 (line_text f) refl (line_text-all_of f v)))

  -- The idle call that finds the line.
  idle_round :
      (fuel : ℕ) (s : Stats) (sent : List Bytes) (st : RxState)
      → extract_tnc2 st [] max_line ≡ (rx_state_init, line (line_text f))
      → (r : Reply) × (handle_loraham_chunk accepts (suc fuel) s sent st []
          ≡ some (rx_state_init, r))
        × Delivered (record s { loraham_rx = bump s.loraham_rx }) sent f r
  unfolding handle_loraham_chunk
  idle_round fuel s sent st e =
      let d = send_tnc2-Delivered (record s { loraham_rx = bump s.loraham_rx }) sent in
      (_, rw (e, c_string-line_text, d.done, round_line) refl, d)

  first_round :
      (fuel : ℕ) (s : Stats) (sent : List Bytes) (packet : Bytes) (st : RxState)
      → st.pending ≡ []
      → extract_tnc2 rx_state_init packet max_line ≡ (st, nothing)
      → handle_loraham_chunk accepts (suc fuel) s sent rx_state_init packet
        ≡ some (st, record { stats = s; sent = sent; result = ok tt })
  unfolding handle_loraham_chunk
  first_round fuel s sent packet st p e = rw (e, p) refl

  found :
      (s : Stats) (sent : List Bytes) (r : Reply)
      → Delivered (record s { loraham_rx = bump s.loraham_rx }) sent f r
      → check_found accepts s.loraham_rx (rx_state_init, r) ≡ r
  found s sent r d =
      let dropped : Reply = record {
        stats = record r.stats { loraham_drop = bump r.stats.loraham_drop };
        sent = r.sent;
        result = fail err_format;
      } in
      let ne : (r.stats.loraham_rx == s.loraham_rx) ≡ false = rw d.counted (bump_ne s.loraham_rx) in
      elim r.result
        as (λ k.
          (elim k as (λ _. Reply) [
            | fail e ↦ r
            | ok _ ↦ if r.stats.loraham_rx == s.loraham_rx then dropped else r
          ])
          ≡ r) [
            | fail e ↦ refl
            | ok u ↦
                if_intro (λ x. x ≡ r) (r.stats.loraham_rx == s.loraham_rx) (λ e. cc) (λ _. refl)
          ]

  -- The scanner finds the packet, the parser reads it, and the encoders have room.
  send_loraham_packet-Delivered :
      (fuel : ℕ) (s : Stats) (sent : List Bytes)
      → free_of_header (line_text f) ≡ true
      → (r : Reply) × (send_loraham_packet accepts (suc fuel) s sent (hdr ++ line_text f) ≡ some r)
        × Delivered (record s { loraham_rx = bump s.loraham_rx }) sent f r
  unfolding send_loraham_packet
  send_loraham_packet-Delivered fuel s sent free =
      let short = length-line_text f v in
      let (st, p, e1, e2) =
        extract_tnc2_packet (line_text f) max_line (line_text-0 f) (omega (arith, short))
          (omega (arith, short))
          (all_of_mono is_line_char is_line_byte (λ c h. ground arith) (line_text f)
            (line_text-all_of f v))
          free in
      let (r, e3, d) = idle_round fuel s sent st e2 in
      (r, rw (first_round fuel s sent (hdr ++ line_text f) st p e1, e3, found s sent r d) refl, d)

  -- A packet that holds the line of a printable frame, with no packet header inside, for a client
  -- whose socket takes it: the client is sent exactly one KISS frame. From it a KISS decoder reads one
  -- data frame on port 0, whose data the AX.25 decoder reads as the frame, with the repeated marks of
  -- destination and source dropped, and the CRs and LFs of the payload as spaces.
  pub send_loraham_packet_delivers :
      (fuel : ℕ) (s : Stats) (sent : List Bytes)
      → free_of_header (line_text f) ≡ true
      → (r : Reply) × (ax25 : Bytes) × (out : Bytes) × (send_loraham_packet accepts
            (suc fuel)
            s
            sent
            (hdr ++ line_text f)
          ≡ some r)
        × (r.result ≡ ok tt)
        × (r.sent ≡ sent ++ out ∷ [])
        × (Kiss.decode_bytes ready out ≡ (ready, data_frame ax25 ∷ []))
        × (decode_ui ax25 ≡ ok (as_read f))
  send_loraham_packet_delivers fuel s sent free =
      let (r, e, d) = send_loraham_packet-Delivered fuel s sent free in
      let bytes = frame_bytes (as_read f) in
      let short : length bytes < Kiss.max_frame = omega (arith, length-as_read f v) in
      (
        r,
        bytes,
        wire bytes,
        e,
        d.done,
        d.output,
        ap (Kiss.decode_bytes ready) (sym (append-nil (wire bytes)))
            ∙ decode_bytes-wires (bytes ∷ []) (short, tt),
        decode_ui-frame_bytes (plain f.dst) (plain f.src) f.path (one_line f.payload)
            (as_read-IsValid f v),
      )

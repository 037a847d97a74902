-- ===== src/Kiss/Stream.antt =====
-- kiss.c: the decoder over a byte stream, against the frames that the encoder writes.
use loraham_kiss_tnc.Base.{
  ℕ, ◌+◌, ◌≤◌, ◌<◌, ◌≡◌, refl, ◌∙◌, true, false, List, [], ◌∷◌, ◌++◌, map, append-nil, append_assoc,
  Bytes, length, length-append, All, arith,
}
use loraham_kiss_tnc.Kiss.{
  fend, cmd_data, max_frame, Frame, Decoder, Outcome, pending, complete, dropped, decode_byte,
  cons_event, decode_bytes, make_frame,
}
use loraham_kiss_tnc.Kiss.Wire.{escape_byte, escape, wire}

-- At the start of a frame, just behind a FEND.
abbrev pub ready : Decoder
ready = record { in_frame = true; escaped = false; buf = [] }

-- The state between two calls: the buffer fits, and outside a frame nothing is kept.
pub record IsValid (dec : Decoder) : Type 0 where
  pub bounded : length dec.buf ≤ max_frame
  pub idle_empty : dec.in_frame ≡ false → dec.buf ≡ []
  pub idle_plain : dec.in_frame ≡ false → dec.escaped ≡ false

-- A frame that fits its fields: two nibbles, and at most 1023 data bytes.
pub record FrameFits (f : Frame) : Type 0 where
  pub port_lt : f.port < 16
  pub command_lt : f.command < 16
  pub payload_lt : length f.payload < max_frame

abbrev pub Fits : Outcome → Type 0
Fits o = (f : Frame) → o ≡ complete f → FrameFits f

make_frame-Fits : (buf : Bytes) → length buf ≤ max_frame → Fits (make_frame buf)
make_frame-Fits [] h f e = cc
make_frame-Fits (c ∷ cs) h f e = ground arith

decode_byte-IsValid : (dec : Decoder) (b : ℕ) → IsValid dec → IsValid (decode_byte dec b).0
unfolding decode_byte
decode_byte-IsValid dec b v = ground (
  arith,
  length-append dec.buf (b ∷ []),
  length-append dec.buf (0xC0 ∷ []),
  length-append dec.buf (0xDB ∷ []),
)

decode_byte-Fits : (dec : Decoder) (b : ℕ) → IsValid dec → Fits (decode_byte dec b).1
unfolding decode_byte
decode_byte-Fits dec b v f e = ground (arith, make_frame-Fits dec.buf v.bounded f)

cons_event-Fits :
    (o : Outcome) (os : List Outcome) → Fits o → All Fits os → All Fits (cons_event o os)
cons_event-Fits pending os h k = k
cons_event-Fits (complete f) os h k = (h, k)
cons_event-Fits (dropped e) os h k = (h, k)

-- From a valid state, whatever bytes a client sends, the decoder keeps its buffer within its bound, and each frame
-- that it hands on has a port and a command below 16 and at most 1023 data bytes.
pub decode_bytes-Fits :
    (dec : Decoder) (bs : Bytes)
    → IsValid dec
    → IsValid (decode_bytes dec bs).0 × All Fits (decode_bytes dec bs).1
unfolding decode_bytes
decode_bytes-Fits dec [] v = (v, tt)
decode_bytes-Fits dec (b ∷ bs) v =
    let (d, os) = decode_bytes-Fits (decode_byte dec b).0 bs (decode_byte-IsValid dec b v) in
    (d, cons_event-Fits _ _ (decode_byte-Fits dec b v) os)

decode_bytes-escape_byte :
    (dec : Decoder) (b : ℕ) (rest : Bytes)
    → dec.in_frame ≡ true
    → dec.escaped ≡ false
    → length dec.buf < max_frame
    → decode_bytes dec (escape_byte b ++ rest)
      ≡ decode_bytes (record dec { buf = dec.buf ++ b ∷ [] }) rest
unfolding decode_bytes decode_byte escape_byte
decode_bytes-escape_byte dec b rest i e h = ground arith

decode_bytes-escape :
    (bytes : Bytes) (dec : Decoder) (rest : Bytes)
    → dec.in_frame ≡ true
    → dec.escaped ≡ false
    → length dec.buf + length bytes ≤ max_frame
    → decode_bytes dec (escape bytes ++ rest)
      ≡ decode_bytes (record dec { buf = dec.buf ++ bytes }) rest
decode_bytes-escape [] dec rest i e h = rw append-nil
decode_bytes-escape (b ∷ bs) dec rest i e h = rw append_assoc (
    decode_bytes-escape_byte dec b (escape bs ++ rest) i e (omega arith)
    ∙ decode_bytes-escape bs (record dec { buf = dec.buf ++ b ∷ [] }) rest i e
        (omega (arith, length-append dec.buf (b ∷ [])))
    ∙ rw append_assoc)

-- A FEND leads to the start of a frame from any state.
decode_byte-fend : (dec : Decoder) → (decode_byte dec fend).0 ≡ ready
unfolding decode_byte
decode_byte-fend dec = ground arith

abbrev pub data_frame : Bytes → Outcome
data_frame bytes = complete (record { port = 0; command = cmd_data; payload = bytes })

decode_bytes-close :
    (bytes rest : Bytes)
    → decode_bytes (record ready { buf = cmd_data ∷ bytes }) (fend ∷ rest)
      ≡ ((decode_bytes ready rest).0, data_frame bytes ∷ (decode_bytes ready rest).1)
unfolding decode_bytes decode_byte
decode_bytes-close bytes rest = refl

decode_bytes-body :
    (bytes rest : Bytes)
    → length bytes < max_frame
    → decode_bytes ready (cmd_data ∷ (escape bytes ++ (fend ∷ rest)))
      ≡ ((decode_bytes ready rest).0, data_frame bytes ∷ (decode_bytes ready rest).1)
unfolding escape_byte
decode_bytes-body bytes rest h =
    decode_bytes-escape (cmd_data ∷ bytes) ready (fend ∷ rest) refl refl (omega arith)
    ∙ decode_bytes-close bytes rest

decode_bytes-cons :
    (dec : Decoder) (b : ℕ) (rest : Bytes)
    → decode_bytes dec (b ∷ rest) ≡ (
      (decode_bytes (decode_byte dec b).0 rest).0,
      cons_event (decode_byte dec b).1 (decode_bytes (decode_byte dec b).0 rest).1,
    )
unfolding decode_bytes
decode_bytes-cons dec b rest = refl

-- From any state of the decoder, in the middle of a broken frame too, an encoded frame is
-- delivered whole; all that its first FEND may do is end what stood before it. The data is at
-- most 1023 bytes, and the bytes behind the frame are read from the start of a frame.
pub decode_bytes-wire :
    (dec : Decoder) (bytes rest : Bytes)
    → length bytes < max_frame
    → decode_bytes dec (wire bytes ++ rest) ≡ (
      (decode_bytes ready rest).0,
      cons_event (decode_byte dec fend).1 (data_frame bytes ∷ (decode_bytes ready rest).1),
    )
decode_bytes-wire dec bytes rest h =
    rw append_assoc
      (decode_bytes-cons dec fend _ ∙ rw (decode_byte-fend, decode_bytes-body bytes rest h))

-- The frames of a list of data fields, one behind the other.
abbrev pub wires : List Bytes → Bytes
wires [] = []
wires (d ∷ ds) = wire d ++ wires ds

abbrev Short : Bytes → Type 0
Short d = length d < max_frame

-- A stream of encoded frames, each with at most 1023 data bytes, is decoded into exactly those
-- frames in their order, with no error and no other frame between them.
pub decode_bytes-wires :
    (ds : List Bytes) → All Short ds → decode_bytes ready (wires ds) ≡ (ready, map data_frame ds)
decode_bytes-wires [] h = unfold decode_bytes in refl
decode_bytes-wires (d ∷ ds) h =
    rw (decode_bytes-wire ready d (wires ds) h.0, decode_bytes-wires ds h.1)
      (unfold decode_byte in refl)

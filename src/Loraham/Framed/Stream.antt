-- ===== src/Loraham/Framed/Stream.antt =====
-- loraham_sock.c: the framed decoder over a stream.
use loraham_kiss_tnc.Base.{
  ℕ, ◌+◌, ◌*◌, ◌/◌, ◌%◌, ◌≤◌, ◌<◌, ◌≡◌, refl, ◌∙◌, false, List, [], ◌∷◌, ◌++◌, map, append-nil,
  append_assoc, ltb, Bytes, length, length-append, All, err_long, ok, ◌>>=◌, sym, ap, arith,
}
use loraham_kiss_tnc.Loraham.Framed.{
  start_payload, max_payload, tx_max, tx_packet, Frame, FramedState, Outcome, pending, complete,
  dropped, state_init, decode_byte, cons_event, decode_bytes, tx_frame,
}

-- The state between two bytes: inside a header, or inside a payload that is not full and fits.
pub record IsValid (st : FramedState) : Type 0 where
  pub header_le : length st.header ≤ 3
  pub len_le : st.payload_len ≤ max_payload
  pub partial : length st.header ≡ 3 → length st.payload < st.payload_len
  pub fresh : length st.header < 3 → st.payload ≡ []

pub decode_byte-IsValid : (st : FramedState) (b : ℕ) → IsValid st → IsValid (decode_byte st b).0
unfolding decode_byte
decode_byte-IsValid st b v =
    ground (arith, length-append st.header (b ∷ []), length-append st.payload (b ∷ []))

-- A frame that the decoder hands on.
abbrev pub Fits : Outcome → Type 0
Fits o = (f : Frame) → o ≡ complete f → length f.payload ≤ max_payload

pub decode_byte-Fits : (st : FramedState) (b : ℕ) → IsValid st → Fits (decode_byte st b).1
unfolding decode_byte
decode_byte-Fits st b v f e =
    ground (arith, length-append st.header (b ∷ []), length-append st.payload (b ∷ []))

cons_event-Fits :
    (o : Outcome) (os : List Outcome) → Fits o → All Fits os → All Fits (cons_event o os)
cons_event-Fits pending os h k = k
cons_event-Fits (complete f) os h k = (h, k)
cons_event-Fits (dropped e) os h k = (h, k)

-- From a valid state, whatever bytes the daemon sends, the decoder never stores past its three header bytes and 1024
-- payload bytes, and each frame that it hands on has at most 1024 payload bytes.
pub decode_bytes-IsValid :
    (st : FramedState) (bs : Bytes)
    → IsValid st
    → IsValid (decode_bytes st bs).0 × All Fits (decode_bytes st bs).1
unfolding decode_bytes
decode_bytes-IsValid st [] v = (v, tt)
decode_bytes-IsValid st (b ∷ bs) v =
    let (d, os) = decode_bytes-IsValid (decode_byte st b).0 bs (decode_byte-IsValid st b v) in
    (d, cons_event-Fits _ _ (decode_byte-Fits st b v) os)

-- A frame's bytes.
abbrev pub frame_bytes : Frame → Bytes
frame_bytes f = f.kind ∷ (length f.payload % 256) ∷ (length f.payload / 256 % 256) ∷ f.payload

abbrev pub reading : Frame → Bytes → FramedState
reading f done = record {
  header = f.kind ∷ (length f.payload % 256) ∷ (length f.payload / 256 % 256) ∷ [];
  kind = f.kind;
  payload_len = length f.payload;
  payload = done;
}

pub decode_byte-last :
    (f : Frame) (done : Bytes) (b : ℕ)
    → f.payload ≡ done ++ b ∷ []
    → decode_byte (reading f done) b ≡ (state_init, complete f)
unfolding decode_byte
decode_byte-last f done b e = ground (arith, length-append done (b ∷ []))

pub decode_byte-more :
    (f : Frame) (done : Bytes) (b : ℕ)
    → length done + 1 < length f.payload
    → decode_byte (reading f done) b ≡ (reading f (done ++ b ∷ []), pending)
unfolding decode_byte
decode_byte-more f done b h = ground (arith, length-append done (b ∷ []))

decode_bytes-cons :
    (st : FramedState) (b : ℕ) (rest : Bytes)
    → decode_bytes st (b ∷ rest) ≡ (
      (decode_bytes (decode_byte st b).0 rest).0,
      cons_event (decode_byte st b).1 (decode_bytes (decode_byte st b).0 rest).1,
    )
unfolding decode_bytes
decode_bytes-cons st b rest = refl

decode_bytes-payload :
    (f : Frame) (done : Bytes) (b : ℕ) (bs rest : Bytes)
    → f.payload ≡ done ++ (b ∷ bs)
    → decode_bytes (reading f done) ((b ∷ bs) ++ rest)
      ≡ ((decode_bytes state_init rest).0, complete f ∷ (decode_bytes state_init rest).1)
decode_bytes-payload f done b [] rest e =
    decode_bytes-cons (reading f done) b rest ∙ rw (decode_byte-last f done b e)
decode_bytes-payload f done b (c ∷ bs) rest e =
    decode_bytes-cons (reading f done) b ((c ∷ bs) ++ rest)
    ∙ rw (decode_byte-more f done b (omega (arith, ap length e, length-append done (b ∷ c ∷ bs)))) (
        decode_bytes-payload f (done ++ b ∷ []) c bs rest
          (e ∙ sym (append_assoc done (b ∷ []) (c ∷ bs))))

pub start_payload-more :
    (header : Bytes) (kind n : ℕ)
    → 0 < n
    → n ≤ max_payload
    → start_payload header kind (n % 256 + n / 256 % 256 * 256)
      ≡ (record { header = header; kind = kind; payload_len = n; payload = [] }, pending)
start_payload-more header kind n h k = ground arith

decode_bytes-start :
    (f : Frame) (rest : Bytes)
    → 0 < length f.payload
    → length f.payload ≤ max_payload
    → decode_bytes state_init (frame_bytes f ++ rest)
      ≡ decode_bytes (reading f []) (f.payload ++ rest)
unfolding decode_bytes decode_byte
decode_bytes-start f rest h k = rw (
    start_payload-more (f.kind ∷ (length f.payload % 256) ∷ (length f.payload / 256 % 256) ∷ [])
      f.kind (length f.payload) h k)

decode_bytes-frame_bytes :
    (kind : ℕ) (payload rest : Bytes)
    → length payload ≤ max_payload
    → let f : Frame = record { kind = kind; payload = payload } in
      decode_bytes state_init (frame_bytes f ++ rest)
      ≡ ((decode_bytes state_init rest).0, complete f ∷ (decode_bytes state_init rest).1)
decode_bytes-frame_bytes kind [] rest h = unfold decode_bytes decode_byte in refl
decode_bytes-frame_bytes kind (b ∷ bs) rest h =
    let f : Frame = record { kind = kind; payload = b ∷ bs } in
    decode_bytes-start f rest (omega arith) h ∙ decode_bytes-payload f [] b bs rest refl

abbrev pub frames_bytes : List Frame → Bytes
frames_bytes [] = []
frames_bytes (f ∷ fs) = frame_bytes f ++ frames_bytes fs

abbrev pub ShortPayload : Frame → Type 0
ShortPayload f = length f.payload ≤ max_payload

-- A stream of frames, each with at most 1024 payload bytes, is decoded into exactly those frames
-- in their order, and leaves the decoder in its initial state.
pub decode_bytes-frames_bytes :
    (fs : List Frame)
    → All ShortPayload fs
    → decode_bytes state_init (frames_bytes fs) ≡ (state_init, map complete fs)
decode_bytes-frames_bytes [] h = unfold decode_bytes in refl
decode_bytes-frames_bytes (f ∷ fs) h = rw (
  decode_bytes-frame_bytes f.kind f.payload (frames_bytes fs) h.0,
  decode_bytes-frames_bytes fs h.1,
)

-- A frame whose length field is above 1024 is refused at its third byte, and nothing is kept of it.
pub decode_bytes_too_long :
    (kind lo hi : ℕ)
    → max_payload < lo + hi * 256
    → decode_bytes state_init (kind ∷ lo ∷ hi ∷ []) ≡ (state_init, dropped err_long ∷ [])
unfolding decode_bytes decode_byte
decode_bytes_too_long kind lo hi h = ground arith

-- A packet of at most 255 bytes is sent as one TX_PACKET frame that reads back as that packet.
pub decode_bytes-tx_frame :
    (payload : Bytes)
    → length payload ≤ tx_max
    → tx_frame payload >>= (λ bytes. ok (decode_bytes state_init bytes))
      ≡ ok (state_init, complete (record { kind = tx_packet; payload = payload }) ∷ [])
unfolding tx_frame
decode_bytes-tx_frame payload h =
    let fits : ltb tx_max (length payload) ≡ false = ground arith in
    let f : Frame = record { kind = tx_packet; payload = payload } in
    rw fits (
      ap ok (
        ap (decode_bytes state_init) (sym (append-nil (frame_bytes f)))
        ∙ decode_bytes-frame_bytes tx_packet payload [] (omega arith)
        ∙ unfold decode_bytes in refl))

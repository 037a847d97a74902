-- ===== src/Ax25/RoundTrip.antt =====
-- ax25.c: decoding what was encoded.
use loraham_kiss_tnc.Base.{
  ℕ, ◌+◌, ◌*◌, ◌≤◌, ◌<◌, ◌≡◌, ◌∙◌, Bool, true, false, List, [], ◌∷◌, ◌++◌, ltb, ◌==◌, if◌then◌else◌,
  Bytes, length, Bool-cases, inl, inr, ok, fail, ltb→lt, ◌⊎◌, arith, err_nospace,
}
use loraham_kiss_tnc.Ax25.{max_payload, Addr, Frame}
use loraham_kiss_tnc.Ax25.Codec.{decode_payload, ctrl_ui, pid_none, ssid_byte, encode_ui, decode_ui}
use loraham_kiss_tnc.Ax25.Valid.{FrameIsValid}
use loraham_kiss_tnc.Ax25.Fields.{
  length-shift_call, addr_bytes, encode_addr-ok, addr_bytes-append, decode_addrs-addr_bytes,
  path_bytes, encode_path-ok, path_bytes-append, not_last, decode_addrs-path_bytes,
}

-- The frame's bytes: destination with the command bit, source, path, control, PID, payload.
pub frame_bytes : Frame → Bytes
frame_bytes f = addr_bytes f.dst false true (
    addr_bytes f.src (length f.path == 0) false
      (path_bytes f.path (ctrl_ui ∷ pid_none ∷ f.payload)))

-- The frame as a receiver has it: only path addresses carry the repeated mark.
abbrev pub plain : Addr → Addr
plain a = record a { repeated = false }

abbrev pub received : Frame → Frame
received f = record f { dst = plain f.dst; src = plain f.src }

abbrev pub need : Frame → ℕ
need f = (2 + length f.path) * 7 + 2 + length f.payload

joined :
    (d r : Addr) (last : Bool) (path : List Addr) (xs : Bytes)
    → addr_bytes d false true [] ++ (addr_bytes r last false [] ++ (path_bytes path [] ++ xs))
      ≡ addr_bytes d false true (addr_bytes r last false (path_bytes path xs))
joined d r last path xs = rw (path_bytes-append, addr_bytes-append, addr_bytes-append)

pub encode_ui-frame_bytes :
    (f : Frame) (size : ℕ)
    → FrameIsValid f
    → encode_ui f size ≡ (if ltb size (need f) then fail err_nospace else ok (frame_bytes f))
unfolding encode_ui frame_bytes
encode_ui-frame_bytes f size v = ground (
  arith,
  encode_addr-ok f.dst false true v.dst_valid,
  encode_addr-ok f.src (length f.path == 0) false v.src_valid,
  encode_path-ok f.path v.path_valid,
  joined f.dst f.src (length f.path == 0) f.path (ctrl_ui ∷ pid_none ∷ f.payload),
)

decode_payload-ok :
    (dst src : Addr) (path : List Addr) (payload : Bytes)
    → length payload ≤ max_payload
    → decode_payload (dst ∷ src ∷ path) (ctrl_ui ∷ pid_none ∷ payload)
      ≡ ok (record { dst = dst; src = src; path = path; payload = payload })
decode_payload-ok dst src path payload h = ground arith

pub decode_ui-frame_bytes :
    (dst src : Addr) (path : List Addr) (payload : Bytes)
    → let f : Frame = record { dst = dst; src = src; path = path; payload = payload } in
      FrameIsValid f → decode_ui (frame_bytes f) ≡ ok (received f)
unfolding decode_ui frame_bytes path_bytes
decode_ui-frame_bytes dst src [] payload v =
    rw
      (
        decode_addrs-addr_bytes dst false true 9 0 _ v.dst_valid,
        decode_addrs-addr_bytes src true false 8 1 _ v.src_valid,
      )
      (decode_payload-ok (plain dst) (plain src) [] payload v.payload_le)
decode_ui-frame_bytes dst src (a ∷ path) payload v =
    rw
      (
        decode_addrs-addr_bytes dst false true 9 0 _ v.dst_valid,
        not_last (length path),
        decode_addrs-addr_bytes src false false 8 1 _ v.src_valid,
        decode_addrs-path_bytes a path 7 0 _ v.path_valid.0 v.path_valid.1
            (omega (arith, v.path_le)),
      )
      (decode_payload-ok (plain dst) (plain src) (a ∷ path) payload v.payload_le)

length-addr_bytes :
    (a : Addr) (last bit7 : Bool) (rest : Bytes)
    → length (addr_bytes a last bit7 rest) ≡ 7 + length rest
unfolding addr_bytes
length-addr_bytes a last bit7 rest =
    omega (arith, length-shift_call (ssid_byte a.ssid last bit7 ∷ rest) 6 a.call)

length-path_bytes :
    (path : List Addr) (rest : Bytes)
    → length (path_bytes path rest) ≡ 7 * length path + length rest
unfolding path_bytes
length-path_bytes [] rest = omega arith
length-path_bytes (a ∷ path) rest = omega (
  arith,
  length-addr_bytes a (length path == 0) a.repeated (path_bytes path rest),
  length-path_bytes path rest,
)

pub length-frame_bytes : (f : Frame) → length (frame_bytes f) ≡ need f
unfolding frame_bytes
length-frame_bytes f = omega (
  arith,
  length-addr_bytes f.dst false true (
      addr_bytes f.src (length f.path == 0) false
        (path_bytes f.path (ctrl_ui ∷ pid_none ∷ f.payload))),
  length-addr_bytes f.src (length f.path == 0) false
      (path_bytes f.path (ctrl_ui ∷ pid_none ∷ f.payload)),
  length-path_bytes f.path (ctrl_ui ∷ pid_none ∷ f.payload),
)

-- A valid frame is encoded whenever the buffer holds its 7 bytes an address, 2 bytes of control and
-- PID, and payload; the output has exactly that length, and decoding it gives the frame back, with
-- the repeated marks of the path kept and those of destination and source cleared. With less room
-- the call fails with the code for no space.
pub encode_ui-decode_ui :
    (f : Frame) (size : ℕ)
    → FrameIsValid f
    → ((size < need f) × (encode_ui f size ≡ fail err_nospace))
      ⊎ ((need f ≤ size)
          × ((bytes : Bytes) × (encode_ui f size ≡ ok bytes)
              × (length bytes ≡ need f)
              × (decode_ui bytes ≡ ok (received f))))
encode_ui-decode_ui f size v = elim (Bool-cases (ltb size (need f))) [
  | inl short ↦ inl (ltb→lt size (need f) short, encode_ui-frame_bytes f size v ∙ rw short)
  | inr fits ↦ inr (
    ground arith,
    (
      frame_bytes f,
      encode_ui-frame_bytes f size v ∙ rw fits,
      length-frame_bytes f,
      decode_ui-frame_bytes f.dst f.src f.path f.payload v,
    ),
  )
]

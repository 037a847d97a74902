-- ===== src/Ax25/Valid.antt =====
-- ax25.c: what the decoder and the address parser let through.
use loraham_kiss_tnc.Base.{
  ℕ, zero, suc, ◌+◌, ◌/◌, ◌%◌, ◌≤◌, ◌≡◌, refl, Bool, true, not, ◌||◌, List, [], ◌∷◌, map, ltb, leb,
  ◌==◌, Bytes, length, get_or, take, drop, err_format, All, Bool-cases, inl, inr, ok, OnOk, OnOk-ok,
  OnOk-intro, bind-OnOk, guard-OnOk, err_unsupported, err_long, all_of, is_alnum, arith,
}
use loraham_kiss_tnc.Ax25.{max_repeaters, max_addrs, max_payload, Addr, Frame, AddrIsValid}
use loraham_kiss_tnc.Ax25.Codec.{
  ctrl_ui, pid_none, trim_end, is_call_byte, is_not_space, make_addr, decode_addr, decode_addrs,
  decode_payload, finish_decode, decode_ui,
}

-- A frame whose addresses are valid, with at most 8 repeaters and 256 payload bytes.
pub record FrameIsValid (f : Frame) : Type 0 where
  pub dst_valid : AddrIsValid f.dst
  pub src_valid : AddrIsValid f.src
  pub path_valid : All AddrIsValid f.path
  pub path_le : length f.path ≤ max_repeaters
  pub payload_le : length f.payload ≤ max_payload

length-trim_end : (cs : Bytes) → length (trim_end cs) ≤ length cs
unfolding trim_end
length-trim_end [] = omega arith
length-trim_end (c ∷ cs) = ground (arith, length-trim_end cs)

trim_end-all_of : (p : ℕ → Bool) (cs : Bytes) → all_of p cs ≡ true → all_of p (trim_end cs) ≡ true
unfolding trim_end
trim_end-all_of p [] h = refl
trim_end-all_of p (c ∷ cs) h = ground (arith, trim_end-all_of p cs)

all_of-alnum :
    (cs : Bytes)
    → all_of is_call_byte cs ≡ true
    → all_of is_not_space cs ≡ true
    → all_of is_alnum cs ≡ true
all_of-alnum [] h k = refl
all_of-alnum (c ∷ cs) h k = ground (arith, all_of-alnum cs)

length-map-take : (f : ℕ → ℕ) (n : ℕ) (cs : Bytes) → length (map f (take n cs)) ≤ n
length-map-take f zero cs = omega arith
length-map-take f (suc n) [] = omega arith
length-map-take f (suc n) (c ∷ cs) = omega (arith, length-map-take f n cs)

make_addr-IsValid :
    (p : Bool) (b : ℕ) (call : Bytes) {a : Addr}
    → length call ≤ 6
    → all_of is_call_byte call ≡ true
    → make_addr p b call ≡ ok a
    → AddrIsValid a
make_addr-IsValid p b call h k e = ground (arith, all_of-alnum call)

decode_addr-IsValid :
    (bytes : Bytes) (p : Bool) {a : Addr} → decode_addr bytes p ≡ ok a → AddrIsValid a
unfolding decode_addr
decode_addr-IsValid bytes p {a} e =
    let chars = map (λ b. b / 2 % 128) (take 6 bytes) in
    elim (Bool-cases (all_of is_call_byte chars)) [
      | inl good ↦
          make_addr-IsValid p (get_or bytes 6 0) (trim_end chars)
            (omega (arith, length-trim_end chars, length-map-take (λ b. b / 2 % 128) 6 bytes))
            (trim_end-all_of is_call_byte chars good) (rw good at e)
      | inr bad ↦ ground arith
    ]

-- What the loop has collected.
abbrev Collected : ℕ → List Addr × Bool × Bytes → Type 0
Collected left (addrs, last, rest) = All AddrIsValid addrs × (length addrs ≤ left)

decode_addrs-Collected :
    (left count : ℕ) (bytes : Bytes) → OnOk (Collected left) (decode_addrs left count bytes)
unfolding decode_addrs
decode_addrs-Collected zero count bytes = (tt, omega arith)
decode_addrs-Collected (suc left) count bytes = elim (Bool-cases (ltb (length bytes) 7)) [
  | inl e ↦ rw e (tt, omega arith)
  | inr e ↦ rw e (
      bind-OnOk AddrIsValid (Collected (suc left)) (decode_addr bytes (leb 2 count)) _
        (OnOk-intro AddrIsValid (decode_addr bytes (leb 2 count))
          (λ a h. decode_addr-IsValid bytes (leb 2 count) h))
        (λ a va. elim (Bool-cases (get_or bytes 6 0 % 2 == 1)) [
          | inl bit ↦ rw bit ((va, tt), omega arith)
          | inr bit ↦ rw bit (
              bind-OnOk (Collected left) (Collected (suc left))
                (decode_addrs left (count + 1) (drop 7 bytes)) _
                (decode_addrs-Collected left (count + 1) (drop 7 bytes))
                (λ out h. ((va, h.0), omega (arith, h.1))))
        ]))
]

decode_payload-IsValid :
    (addrs : List Addr) (rest : Bytes)
    → All AddrIsValid addrs
    → length addrs ≤ max_addrs
    → OnOk FrameIsValid (decode_payload addrs rest)
decode_payload-IsValid (dst ∷ src ∷ path) (ctrl ∷ pid ∷ payload) v h =
    guard-OnOk FrameIsValid (not (ctrl == ctrl_ui) || not (pid == pid_none)) err_unsupported _ (λ _.
      guard-OnOk FrameIsValid (ltb max_payload (length payload)) err_long _ (λ fits. record {
        dst_valid = v.0;
        src_valid = v.1.0;
        path_valid = v.1.1;
        path_le = omega arith;
        payload_le = ground arith;
      }))
decode_payload-IsValid (dst ∷ src ∷ path) (ctrl ∷ []) v h = tt
decode_payload-IsValid (dst ∷ src ∷ path) [] v h = tt
decode_payload-IsValid (dst ∷ []) rest v h = tt
decode_payload-IsValid [] rest v h = tt

-- Whatever bytes come in, a frame that `ax25_decode_ui` accepts is valid: the addresses hold one
-- to six letters and digits and nothing else, so no crafted header can bring a delimiter into the
-- text line, there are at most 8 repeaters, and the payload fits.
pub decode_ui-IsValid : (bytes : Bytes) {f : Frame} → decode_ui bytes ≡ ok f → FrameIsValid f
unfolding decode_ui
decode_ui-IsValid bytes e =
    OnOk-ok FrameIsValid (decode_ui bytes)
      (bind-OnOk (Collected max_addrs) FrameIsValid (decode_addrs max_addrs 0 bytes) finish_decode
        (decode_addrs-Collected max_addrs 0 bytes)
        (λ out h.
          guard-OnOk FrameIsValid (not out.1) err_format _
            (λ _. decode_payload-IsValid out.0 out.2 h.0 h.1)))
      e

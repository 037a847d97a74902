-- ===== src/Ax25/Codec.antt =====
-- ax25.c: the binary form of an address and of a UI frame. `x >> k` and `x & (2 ^ k - 1)` are
-- written `x / 2 ^ k` and `x % 2 ^ k`, and a cast to uint8_t is `% 256`.
use loraham_kiss_tnc.Base.{
  ℕ, zero, suc, ◌+◌, ◌*◌, ◌/◌, ◌%◌, bit_or, Bool, true, false, not, ◌&&◌, ◌||◌, List, [], ◌∷◌, ◌++◌,
  map, ltb, leb, ◌==◌, if◌then◌else◌, Bytes, length, get_or, take, drop, err_short, err_long,
  err_format, err_unsupported, err_nospace, Result, ok, fail, ◌>>=◌, all_of, is_alnum,
}
use loraham_kiss_tnc.Ax25.{max_repeaters, max_addrs, max_payload, max_frame, Addr, Frame}

abbrev pub addr_len : ℕ
addr_len = 7

abbrev pub ctrl_ui : ℕ
ctrl_ui = 0x03

abbrev pub pid_none : ℕ
pid_none = 0xf0

-- The call's characters shifted left by one, padded by spaces to `n` places.
unfoldable pub shift_call : ℕ → Bytes → Bytes
shift_call zero cs = []
shift_call (suc n) [] = (32 * 2 % 256) ∷ shift_call n []
shift_call (suc n) (c ∷ cs) = (c * 2 % 256) ∷ shift_call n cs

-- 0x60 | (ssid & 0x0f) << 1, then | 0x80 for bit 7 and | 0x01 for the last address.
unfoldable pub ssid_byte : ℕ → Bool → Bool → ℕ
ssid_byte ssid last bit7 =
    bit_or (bit_or (bit_or 0x60 (ssid % 16 * 2 % 256)) (if bit7 then 0x80 else 0))
      (if last then 0x01 else 0)

unfoldable pub encode_addr : Addr → Bool → Bool → Result Bytes
unfolding shift_call ssid_byte
encode_addr a last bit7 =
    if length a.call == 0 || ltb 15 a.ssid
    then fail err_format
    else ok (shift_call 6 a.call ++ ssid_byte a.ssid last bit7 ∷ [])

-- The text without the spaces at its end.
unfoldable pub trim_end : Bytes → Bytes
trim_end [] = []
trim_end (c ∷ cs) = let rest = trim_end cs in if c == 32 && length rest == 0 then [] else c ∷ rest

abbrev pub is_call_byte : ℕ → Bool
is_call_byte c = c == 32 || is_alnum c

abbrev pub is_not_space : ℕ → Bool
is_not_space c = not (c == 32)

-- The end of the address decoder, on the text without its padding.
abbrev pub make_addr : Bool → ℕ → Bytes → Result Addr
make_addr is_path b call =
    if ltb (length call) 1
    then fail err_format
    else if not (all_of is_not_space call)
    then fail err_format
    else ok (record { call = call; ssid = b / 2 % 16; repeated = is_path && (b / 128 % 2 == 1) })

-- Seven bytes at the front of `bytes`.
unfoldable pub decode_addr : Bytes → Bool → Result Addr
unfolding trim_end
decode_addr bytes is_path =
    let chars = map (λ b. b / 2 % 128) (take 6 bytes) in
    if not (all_of is_call_byte chars)
    then fail err_format
    else make_addr is_path (get_or bytes 6 0) (trim_end chars)

-- The path addresses; only the last of them has the extension bit.
unfoldable pub encode_path : List Addr → Result Bytes
encode_path [] = ok []
encode_path (a ∷ path) = do
  bytes ← encode_addr a (length path == 0) a.repeated
  more ← encode_path path
  ok (bytes ++ more)

unfoldable pub encode_ui : Frame → ℕ → Result Bytes
encode_ui f size =
    let need = (2 + length f.path) * addr_len + 2 + length f.payload in
    if ltb max_repeaters (length f.path) || ltb max_payload (length f.payload)
    then fail err_long
    else if ltb max_frame need
    then fail err_long
    else if ltb size need
    then fail err_nospace
    else do
      dst ← encode_addr f.dst false true
      src ← encode_addr f.src (length f.path == 0) false
      path ← encode_path f.path
      ok (dst ++ (src ++ (path ++ (ctrl_ui ∷ pid_none ∷ f.payload))))

-- The loop over the address fields with `left` rounds to go and `count` addresses read: the
-- addresses, whether the last one has the extension bit, and the bytes behind them.
unfoldable pub decode_addrs : ℕ → ℕ → Bytes → Result (List Addr × Bool × Bytes)
decode_addrs zero count bytes = ok ([], false, bytes)
decode_addrs (suc left) count bytes =
    let more = decode_addrs left (count + 1) (drop addr_len bytes) in
    if ltb (length bytes) addr_len then ok ([], false, bytes) else do
      a ← decode_addr bytes (leb 2 count)
      if get_or bytes 6 0 % 2 == 1
          then ok (a ∷ [], true, drop addr_len bytes)
          else (more >>= λ (addrs, last, rest). ok (a ∷ addrs, last, rest))

-- Control, PID and payload behind the addresses.
abbrev pub decode_payload : List Addr → Bytes → Result Frame
decode_payload (dst ∷ src ∷ path) (ctrl ∷ pid ∷ payload) =
    if not (ctrl == ctrl_ui) || not (pid == pid_none)
    then fail err_unsupported
    else if ltb max_payload (length payload)
    then fail err_long
    else ok (record { dst = dst; src = src; path = path; payload = payload })
decode_payload (dst ∷ src ∷ path) _ = fail err_short
decode_payload _ _ = fail err_format

abbrev pub finish_decode : List Addr × Bool × Bytes → Result Frame
finish_decode (addrs, last, rest) = if not last then fail err_format else decode_payload addrs rest

unfoldable pub decode_ui : Bytes → Result Frame
decode_ui bytes = decode_addrs max_addrs 0 bytes >>= finish_decode

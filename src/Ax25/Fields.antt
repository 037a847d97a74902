-- ===== src/Ax25/Fields.antt =====
-- ax25.c: the bytes of one address and of a path, encoded and decoded.
use loraham_kiss_tnc.Base.{
  ℕ, zero, suc, ◌+◌, ◌/◌, ◌%◌, ◌≤◌, ◌<◌, ◌≡◌, refl, ◌∙◌, Bool, true, false, ◌&&◌, List, [], ◌∷◌,
  ◌++◌, map, ltb, leb, ◌==◌, if◌then◌else◌, Bytes, length, get_or, take, drop, append_assoc, All,
  ap, ok, ◌>>=◌, all_of, all_below, all_below_sound, is_alnum, arith,
}
use loraham_kiss_tnc.Ax25.{Addr, AddrIsValid}
use loraham_kiss_tnc.Ax25.Codec.{
  addr_len, shift_call, ssid_byte, encode_addr, trim_end, is_call_byte, is_not_space, decode_addr,
  encode_path, decode_addrs,
}

-- The SSID byte, its three fields read back, checked at all sixteen values.
abbrev fields_back : Bool → Bool → ℕ → Bool
fields_back last bit7 ssid =
    let b = ssid_byte ssid last bit7 in
    (b / 2 % 16 == ssid)
    && (b % 2 == (if last then 1 else 0))
    && (b / 128 % 2 == (if bit7 then 1 else 0))

fields_table : (last bit7 : Bool) → all_below 16 (fields_back last bit7) ≡ true
unfolding ssid_byte
fields_table true true = refl
fields_table true false = refl
fields_table false true = refl
fields_table false false = refl

ssid_byte_fields :
    (ssid : ℕ) (last bit7 : Bool)
    → ssid < 16
    → (ssid_byte ssid last bit7 / 2 % 16 ≡ ssid)
      × ((ssid_byte ssid last bit7 % 2 == 1) ≡ last)
      × ((ssid_byte ssid last bit7 / 128 % 2 == 1) ≡ bit7)
ssid_byte_fields ssid last bit7 h =
    ground (arith, all_below_sound 16 (fields_back last bit7) ssid (fields_table last bit7) h)

-- The call with spaces behind it, up to `n` places.
pad : ℕ → Bytes → Bytes
pad zero cs = []
pad (suc n) [] = 32 ∷ pad n []
pad (suc n) (c ∷ cs) = c ∷ pad n cs

module _ (xs : Bytes) where
  pub length-shift_call : (n : ℕ) (cs : Bytes) → length (shift_call n cs ++ xs) ≡ n + length xs
  unfolding shift_call
  length-shift_call zero cs = omega arith
  length-shift_call (suc n) [] = omega (arith, length-shift_call n [])
  length-shift_call (suc n) (c ∷ cs) = omega (arith, length-shift_call n cs)

  take-shift_call :
      (n : ℕ) (cs : Bytes)
      → all_of is_alnum cs ≡ true
      → map (λ b. b / 2 % 128) (take n (shift_call n cs ++ xs)) ≡ pad n cs
  unfolding shift_call pad
  take-shift_call zero cs h = refl
  take-shift_call (suc n) [] h = ap (◌∷◌ 32) (take-shift_call n [] refl)
  take-shift_call (suc n) (c ∷ cs) h = ground (arith, take-shift_call n cs)

  drop-shift_call : (n : ℕ) (cs : Bytes) → drop n (shift_call n cs ++ xs) ≡ xs
  unfolding shift_call
  drop-shift_call zero cs = refl
  drop-shift_call (suc n) [] = drop-shift_call n []
  drop-shift_call (suc n) (c ∷ cs) = drop-shift_call n cs

  get_or-shift_call :
      (n : ℕ) (cs : Bytes) (d : ℕ) → get_or (shift_call n cs ++ xs) n d ≡ get_or xs 0 d
  unfolding shift_call
  get_or-shift_call zero cs d = refl
  get_or-shift_call (suc n) [] d = get_or-shift_call n [] d
  get_or-shift_call (suc n) (c ∷ cs) d = get_or-shift_call n cs d

drop_more : (n : ℕ) (xs ys : Bytes) (x : ℕ) → drop n xs ≡ x ∷ ys → drop (suc n) xs ≡ ys
drop_more zero (a ∷ xs) ys x h = cc
drop_more zero [] ys x h = absurd cc
drop_more (suc n) (a ∷ xs) ys x h = drop_more n xs ys x h
drop_more (suc n) [] ys x h = absurd cc

trim_end-pad :
    (n : ℕ) (cs : Bytes) → length cs ≤ n → all_of is_alnum cs ≡ true → trim_end (pad n cs) ≡ cs
unfolding trim_end pad
trim_end-pad zero [] h k = refl
trim_end-pad zero (c ∷ cs) h k = absurd (omega arith)
trim_end-pad (suc n) [] h k = rw (trim_end-pad n [] (omega arith) refl)
trim_end-pad (suc n) (c ∷ cs) h k = ground (arith, trim_end-pad n cs)

pad-all_of :
    (n : ℕ) (cs : Bytes) → all_of is_alnum cs ≡ true → all_of is_call_byte (pad n cs) ≡ true
unfolding pad
pad-all_of zero cs k = refl
pad-all_of (suc n) [] k = pad-all_of n [] refl
pad-all_of (suc n) (c ∷ cs) k = ground (arith, pad-all_of n cs)

alnum-not_space : (cs : Bytes) → all_of is_alnum cs ≡ true → all_of is_not_space cs ≡ true
alnum-not_space [] k = refl
alnum-not_space (c ∷ cs) k = ground (arith, alnum-not_space cs)

-- The seven bytes of an address, in front of `rest`.
unfoldable pub addr_bytes : Addr → Bool → Bool → Bytes → Bytes
addr_bytes a last bit7 rest = shift_call 6 a.call ++ (ssid_byte a.ssid last bit7 ∷ rest)

pub encode_addr-ok :
    (a : Addr) (last bit7 : Bool)
    → AddrIsValid a
    → encode_addr a last bit7 ≡ ok (addr_bytes a last bit7 [])
unfolding encode_addr addr_bytes
encode_addr-ok a last bit7 v = ground arith

pub addr_bytes-append :
    (a : Addr) (last bit7 : Bool) (xs ys : Bytes)
    → addr_bytes a last bit7 xs ++ ys ≡ addr_bytes a last bit7 (xs ++ ys)
unfolding addr_bytes
addr_bytes-append a last bit7 xs ys = append_assoc (shift_call 6 a.call) _ ys

decode_addr-addr_bytes :
    (a : Addr) (last bit7 p : Bool) (rest : Bytes)
    → AddrIsValid a
    → decode_addr (addr_bytes a last bit7 rest) p ≡ ok (record a { repeated = p && bit7 })
unfolding decode_addr addr_bytes
decode_addr-addr_bytes a last bit7 p rest v =
    rw
      (
        take-shift_call (ssid_byte a.ssid last bit7 ∷ rest) 6 a.call v.call_alnum,
        get_or-shift_call (ssid_byte a.ssid last bit7 ∷ rest) 6 a.call 0,
        pad-all_of 6 a.call v.call_alnum,
        trim_end-pad 6 a.call v.call_le v.call_alnum,
      )
      (ground (arith, alnum-not_space a.call, ssid_byte_fields a.ssid last bit7))

no_short : (n : ℕ) → ltb (6 + suc n) addr_len ≡ false
no_short n = ground arith

-- The decoder loop over one address.
pub decode_addrs-addr_bytes :
    (a : Addr) (last bit7 : Bool) (left count : ℕ) (rest : Bytes)
    → AddrIsValid a
    → decode_addrs (suc left) count (addr_bytes a last bit7 rest) ≡ (
        let b = record a { repeated = leb 2 count && bit7 } in
        if last
        then ok (b ∷ [], true, rest)
        else (decode_addrs left (count + 1) rest >>= λ (addrs, end, tail).
            ok (b ∷ addrs, end, tail)))
unfolding decode_addrs addr_bytes
decode_addrs-addr_bytes a last bit7 left count rest v =
    let field = ssid_byte a.ssid last bit7 ∷ rest in
    rw (
      decode_addr-addr_bytes a last bit7 (leb 2 count) rest v,
      length-shift_call field 6 a.call,
      get_or-shift_call field 6 a.call 0,
      drop_more 6 _ rest _ (drop-shift_call field 6 a.call),
      no_short (length rest),
      (ssid_byte_fields a.ssid last bit7 v.ssid_lt).1,
    )

-- The path's bytes in front of `rest`.
unfoldable pub path_bytes : List Addr → Bytes → Bytes
path_bytes [] rest = rest
path_bytes (a ∷ path) rest = addr_bytes a (length path == 0) a.repeated (path_bytes path rest)

pub encode_path-ok :
    (path : List Addr) → All AddrIsValid path → encode_path path ≡ ok (path_bytes path [])
unfolding encode_path path_bytes
encode_path-ok [] v = refl
encode_path-ok (a ∷ path) v =
    rw (
      encode_addr-ok a (length path == 0) a.repeated v.0,
      encode_path-ok path v.1,
      addr_bytes-append,
    )

pub path_bytes-append :
    (path : List Addr) (xs ys : Bytes) → path_bytes path xs ++ ys ≡ path_bytes path (xs ++ ys)
unfolding path_bytes
path_bytes-append [] xs ys = refl
path_bytes-append (a ∷ path) xs ys =
    addr_bytes-append a _ _ (path_bytes path xs) ys
    ∙ ap (addr_bytes a (length path == 0) a.repeated) (path_bytes-append path xs ys)

pub not_last : (n : ℕ) → (suc n == 0) ≡ false
not_last n = ground arith

leb_two : (n : ℕ) → leb 2 (n + 2) ≡ true
leb_two n = ground arith

-- A path that is not empty is read back, with its repeated marks.
pub decode_addrs-path_bytes :
    (a : Addr) (path : List Addr) (left n : ℕ) (rest : Bytes)
    → AddrIsValid a
    → All AddrIsValid path
    → length path ≤ left
    → decode_addrs (suc left) (n + 2) (path_bytes (a ∷ path) rest) ≡ ok (a ∷ path, true, rest)
unfolding path_bytes
decode_addrs-path_bytes a [] left n rest va vp h =
    rw (decode_addrs-addr_bytes a true a.repeated left (n + 2) rest va, leb_two n)
decode_addrs-path_bytes a (b ∷ path) zero n rest va vp h = absurd (omega arith)
decode_addrs-path_bytes a (b ∷ path) (suc left) n rest va vp h =
    let e : n + 2 + 1 ≡ n + 1 + 2 = omega arith in
    rw (
      not_last (length path),
      decode_addrs-addr_bytes a false a.repeated (suc left) (n + 2) (path_bytes (b ∷ path) rest) va,
      leb_two n,
      e,
      decode_addrs-path_bytes b path left (n + 1) rest vp.0 vp.1 (omega arith),
    )

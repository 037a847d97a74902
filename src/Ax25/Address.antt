-- ===== src/Ax25/Address.antt =====
-- ax25.c: ax25_addr_parse and ax25_addr_format, the text form CALL-SSID* of an address.
use loraham_kiss_tnc.Base.{
  ℕ, Bool, true, false, not, ◌||◌, [], ◌∷◌, ◌++◌, map, Option, none, some, ltb, leb, ◌==◌,
  if◌then◌else◌, Bytes, length, err_long, err_format, err_nospace, Result, ok, fail, ◌>>=◌, all_of,
  is_digit, is_alnum, to_upper, cut, strtol, decimal,
}
use loraham_kiss_tnc.Ax25.{Addr}

-- The text without a star at its end, and whether there was one.
unfoldable pub strip_star : Bytes → Bool × Bytes
strip_star [] = (false, [])
strip_star (c ∷ []) = if c == b'*' then (true, []) else (false, c ∷ [])
strip_star (c ∷ d ∷ cs) = let (star, rest) = strip_star (d ∷ cs) in (star, c ∷ rest)

-- What follows a dash. At most 14 digits are read, so strtol does not saturate.
abbrev pub parse_ssid : Option Bytes → Result ℕ
parse_ssid none = ok 0
parse_ssid (some []) = fail err_format
parse_ssid (some (d ∷ ds)) =
    if not (all_of is_digit (d ∷ ds))
    then fail err_format
    else if ltb 15 (strtol 0 (d ∷ ds))
    then fail err_format
    else ok (strtol 0 (d ∷ ds))

abbrev pub parse_call : Bytes → Result Bytes
parse_call call =
    if ltb (length call) 1 || ltb 6 (length call)
    then fail err_format
    else if not (all_of is_alnum call)
    then fail err_format
    else ok (map to_upper call)

abbrev pub parse_starred : Bool × Bytes → Result Addr
parse_starred (star, tmp) =
    let (name, digits) = cut b'-' tmp in
    do
      ssid ← parse_ssid digits
      call ← parse_call name
      ok (record { call = call; ssid = ssid; repeated = star })

unfoldable pub addr_parse : Bytes → Result Addr
unfolding strip_star
addr_parse text =
    if length text == 0
    then fail err_format
    else if leb 16 (length text)
    then fail err_long
    else parse_starred (strip_star text)

abbrev pub star_text : Bool → Bytes
star_text star = if star then b'*' ∷ [] else []

abbrev pub ssid_text : ℕ → Bytes
ssid_text ssid = if ssid == 0 then [] else b'-' ∷ decimal ssid

-- What snprintf writes into a buffer without bound.
abbrev pub addr_text : Addr → Bytes
addr_text a = a.call ++ (ssid_text a.ssid ++ star_text a.repeated)

unfoldable pub addr_format : Addr → ℕ → Result Bytes
addr_format a size =
    if size == 0 || length a.call == 0
    then fail err_format
    else if ltb 15 a.ssid
    then fail err_format
    else if leb size (length (addr_text a))
    then fail err_nospace
    else ok (addr_text a)

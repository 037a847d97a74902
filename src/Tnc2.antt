-- ===== src/Tnc2.antt =====
-- tnc2.c: the text line SRC>DST,PATH:PAYLOAD of a frame.
pub mod Text
pub mod Valid
pub mod RoundTrip
use loraham_kiss_tnc.Base.{
  ℕ, zero, suc, ◌+◌, ◌≡◌, Bool, true, false, not, ◌&&◌, ◌||◌, List, [], ◌∷◌, ◌++◌, map, Option,
  none, some, ltb, leb, ◌==◌, if◌then◌else◌, Bytes, length, err, err_long, err_format, err_nospace,
  Result, ok, fail, ◌>>=◌, all_of, cut,
}
use loraham_kiss_tnc.Ax25.{max_repeaters, max_payload, Addr, Frame}
use loraham_kiss_tnc.Ax25.Address.{addr_parse, addr_format}

abbrev pub max_line : ℕ
max_line = 512

abbrev pub is_eol : ℕ → Bool
is_eol c = c == b'\n' || c == b'\r'

-- The line without the CRs and LFs at its end.
unfoldable pub strip_eol : Bytes → Bytes
strip_eol [] = []
strip_eol (c ∷ cs) =
    let rest = strip_eol cs in if is_eol c && length rest == 0 then [] else c ∷ rest

-- The loop over the digipeaters from `p` on, with `left` places of `frame->path` free.
unfoldable pub parse_digis : ℕ → Bytes → Result (List Addr)
parse_digis left [] = ok []
parse_digis zero (c ∷ cs) = fail err_long
parse_digis (suc left) (c ∷ cs) =
    let (p, behind) = cut b',' (c ∷ cs) in
    if length p == 0 then fail err_format else do
      a ← addr_parse p
      elim behind [ none ↦ ok (a ∷ []) | some q ↦ (parse_digis left q >>= λ more. ok (a ∷ more)) ]

-- What follows the destination.
abbrev pub parse_behind : Addr → Option Bytes → Result (Addr × List Addr)
parse_behind dst none = ok (dst, [])
parse_behind dst (some []) = fail err_format
parse_behind dst (some (c ∷ cs)) = parse_digis max_repeaters (c ∷ cs) >>= λ path. ok (dst, path)

-- The destination, its star dropped, and the path.
unfoldable pub parse_path : Bytes → Result (Addr × List Addr)
unfolding parse_digis
parse_path text = if length text == 0 then fail err_format else do
  dst ← addr_parse (cut b',' text).0
  parse_behind (record dst { repeated = false }) (cut b',' text).1

-- From the three fields of the line on.
abbrev pub parse_fields : Bytes → Bytes → Bytes → Result Frame
parse_fields station header payload = if ltb max_payload (length payload) then fail err_long else do
  src ← addr_parse station
  (dst, path) ← parse_path header
  ok (record { dst = dst; src = record src { repeated = false }; path = path; payload = payload })

abbrev pub parse_header : Bytes → Bytes × Option Bytes → Result Frame
parse_header station (header, none) = fail err_format
parse_header station (header, some payload) = parse_fields station header payload

abbrev pub parse_station : Bytes × Option Bytes → Result Frame
parse_station (station, none) = fail err_format
parse_station (station, some behind) =
    if length station == 0 then fail err_format else parse_header station (cut b':' behind)

unfoldable pub parse_line : Bytes → Result Frame
parse_line line =
    if leb max_line (length line) then fail err_long else parse_station (cut b'>' (strip_eol line))

abbrev pub format_station : Addr → ℕ → Result Bytes
format_station a size = addr_format (record a { repeated = false }) size

-- The output so far with a text behind it, a place left for the NUL.
abbrev pub append_mem : Bytes → ℕ → Bytes → Result Bytes
append_mem out size text =
    if leb size (length out + length text) then fail err_nospace else ok (out ++ text)

-- `char addr[32]`.
abbrev pub addr_size : ℕ
addr_size = 32

unfoldable pub append_path : List Addr → Bytes → ℕ → Result Bytes
append_path [] out size = ok out
append_path (a ∷ path) out size = do
  out1 ← append_mem out size (b',' ∷ [])
  text ← addr_format a addr_size
  out2 ← append_mem out1 size text
  append_path path out2 size

-- CR and LF become spaces.
abbrev pub one_line : Bytes → Bytes
one_line = map (λ b. if is_eol b then b' ' else b)

abbrev pub is_not_nul : ℕ → Bool
is_not_nul c = not (c == 0)

abbrev pub append_payload : Bytes → Bytes → ℕ → Result Bytes
append_payload [] out size = ok out
append_payload (b ∷ bs) out size = append_mem out size (one_line (b ∷ bs))

unfoldable pub format_line : Frame → ℕ → Result Bytes
unfolding append_path
format_line f size =
    if size == 0
    then fail err
    else if ltb max_repeaters (length f.path)
    then fail err_long
    else if ltb max_payload (length f.payload)
    then fail err_long
    else if not (all_of is_not_nul f.payload)
    then fail err_format
    else do
      src ← format_station f.src addr_size
      out1 ← append_mem [] size src
      out2 ← append_mem out1 size (b'>' ∷ [])
      dst ← format_station f.dst addr_size
      out3 ← append_mem out2 size dst
      out4 ← append_path f.path out3 size
      out5 ← append_mem out4 size (b':' ∷ [])
      append_payload f.payload out5 size

-- ===== src/Tnc2/RoundTrip.antt =====
-- tnc2.c: parsing a formatted line.
use loraham_kiss_tnc.Base.{
  ℕ, zero, suc, ◌≤◌, ◌<◌, ◌≡◌, refl, sym, ◌∙◌, Bool, true, false, not, ◌&&◌, ◌||◌, List, [], ◌∷◌,
  ◌++◌, ltb, leb, ◌==◌, Bytes, length, length-append, append_assoc, append-nil, All, ap, none, some,
  ok, ◌>>=◌, all_of, cut, cut-Lacks, cut-append, all_of-append, all_of-Lacks, all_of_mono, arith,
}
use loraham_kiss_tnc.Ax25.{max_repeaters, max_payload, Addr, Frame}
use loraham_kiss_tnc.Ax25.Address.{addr_parse, addr_text, ssid_text}
use loraham_kiss_tnc.Ax25.AddressText.{
  IsCanonical, is_call_char, addr_parse-addr_text, length-addr_text,
}
use loraham_kiss_tnc.Ax25.RoundTrip.{plain}
use loraham_kiss_tnc.Tnc2.{
  max_line, format_line, is_eol, strip_eol, parse_digis, parse_behind, parse_path, parse_line,
  one_line, is_not_nul,
}
use loraham_kiss_tnc.Tnc2.Text.{
  IsPrintable, format_line-line_text, plain-IsCanonical, path_text, path_text-append,
  length-one_line, line_text, length-line_text,
}

-- The characters of an address, and of the header's address part.
abbrev pub is_addr_char : ℕ → Bool
is_addr_char c = is_call_char c || c == b'-' || c == b'*'

abbrev is_header_char : ℕ → Bool
is_header_char c = is_addr_char c || c == b','

abbrev pub is_line_char : ℕ → Bool
is_line_char c = not (is_eol c) && is_not_nul c

ssid_text-all_of : (n : ℕ) → n < 16 → all_of is_addr_char (ssid_text n) ≡ true
ssid_text-all_of n h = ground arith

addr_text-all_of : (a : Addr) → IsCanonical a → all_of is_addr_char (addr_text a) ≡ true
addr_text-all_of a v =
    all_of-append is_addr_char a.call _
      (all_of_mono is_call_char is_addr_char (λ c h. ground arith) a.call v.upper)
      (all_of-append is_addr_char (ssid_text a.ssid) _ (ssid_text-all_of a.ssid v.valid.ssid_lt)
        (ground arith))

strip_eol-all_of : (cs : Bytes) → all_of is_line_char cs ≡ true → strip_eol cs ≡ cs
unfolding strip_eol
strip_eol-all_of [] h = refl
strip_eol-all_of (c ∷ cs) h = ground (arith, strip_eol-all_of cs)

one_line-all_of :
    (bs : Bytes) → all_of is_not_nul bs ≡ true → all_of is_line_char (one_line bs) ≡ true
one_line-all_of [] h = refl
one_line-all_of (b ∷ bs) h = ground (arith, one_line-all_of bs)

addr_text-ne : (a : Addr) → IsCanonical a → (length (addr_text a) == 0) ≡ false
addr_text-ne a v = ground (arith, length-addr_text a v)

module _ (left : ℕ) (text p : Bytes) (a : Addr) (ne : (length p == 0) ≡ false)
    (parses : addr_parse p ≡ ok a) where
  parse_digis-last : cut b',' text ≡ (p, none) → parse_digis (suc left) text ≡ ok (a ∷ [])
  unfolding parse_digis
  parse_digis-last =
      elim text as (λ t. cut b',' t ≡ (p, none) → parse_digis (suc left) t ≡ ok (a ∷ [])) [
        | [] ↦ λ e. unfold cut in ground arith
        | c ∷ cs ↦ λ e. rw (e, ne, parses)
      ]

  parse_digis-more :
      (q : Bytes)
      → cut b',' text ≡ (p, some q)
      → parse_digis (suc left) text ≡ (parse_digis left q >>= λ more. ok (a ∷ more))
  unfolding parse_digis
  parse_digis-more q =
      elim text
        as (λ t.
          cut b',' t ≡ (p, some q)
          → parse_digis (suc left) t ≡ (parse_digis left q >>= λ more. ok (a ∷ more))) [
            | [] ↦ λ e. unfold cut in ground arith
            | c ∷ cs ↦ λ e. rw (e, ne, parses)
          ]

-- The loop reads a path back, whatever number of places it has from the path's length on.
parse_digis-path_text :
    (a : Addr) (path : List Addr) (left : ℕ)
    → IsCanonical a
    → All IsCanonical path
    → length path < left
    → parse_digis left (addr_text a ++ path_text path []) ≡ ok (a ∷ path)
parse_digis-path_text a path zero va vp h = absurd (omega arith)
parse_digis-path_text a [] (suc left) va vp h = rw append-nil (
    parse_digis-last left (addr_text a) (addr_text a) a (addr_text-ne a va)
      (addr_parse-addr_text a va)
      (cut-Lacks b',' (addr_text a)
        (all_of-Lacks is_addr_char b',' _ refl (addr_text-all_of a va))))
parse_digis-path_text a (b ∷ path) (suc left) va vp h =
    parse_digis-more left _ (addr_text a) a (addr_text-ne a va) (addr_parse-addr_text a va)
      (addr_text b ++ path_text path [])
      (cut-append b',' (addr_text a) _
        (all_of-Lacks is_addr_char b',' _ refl (addr_text-all_of a va)))
    ∙ rw (parse_digis-path_text b path left vp.0 vp.1 (omega arith))

parse_behind-ne :
    (dst : Addr) (text : Bytes)
    → (length text == 0) ≡ false
    → parse_behind dst (some text) ≡ (parse_digis max_repeaters text >>= λ path. ok (dst, path))
parse_behind-ne dst [] h = absurd (ground arith)
parse_behind-ne dst (c ∷ cs) h = refl

append_ne : (s t : Bytes) → (length s == 0) ≡ false → (length (s ++ t) == 0) ≡ false
append_ne s t h = ground (arith, length-append s t)

parse_path-path_text :
    (dst : Addr) (path : List Addr)
    → IsCanonical dst
    → All IsCanonical path
    → length path ≤ max_repeaters
    → parse_path (addr_text dst ++ path_text path []) ≡ ok (plain dst, path)
unfolding parse_path
parse_path-path_text dst [] vd vp h = rw (
  append-nil,
  addr_text-ne dst vd,
  cut-Lacks b',' (addr_text dst) (all_of-Lacks is_addr_char b',' _ refl (addr_text-all_of dst vd)),
  addr_parse-addr_text dst vd,
)
parse_path-path_text dst (a ∷ path) vd vp h = rw (
  append_ne (addr_text dst) _ (addr_text-ne dst vd),
  cut-append b',' (addr_text dst) (addr_text a ++ path_text path [])
      (all_of-Lacks is_addr_char b',' _ refl (addr_text-all_of dst vd)),
  addr_parse-addr_text dst vd,
  parse_behind-ne (plain dst) _ (append_ne (addr_text a) (path_text path []) (addr_text-ne a vp.0)),
  parse_digis-path_text a path max_repeaters vp.0 vp.1 (omega arith),
)

path_text-all_of :
    (path : List Addr) → All IsCanonical path → all_of is_header_char (path_text path []) ≡ true
path_text-all_of [] v = refl
path_text-all_of (a ∷ path) v =
    all_of-append is_header_char (addr_text a) _
      (all_of_mono is_addr_char is_header_char (λ c h. ground arith) (addr_text a)
        (addr_text-all_of a v.0))
      (path_text-all_of path v.1)

header_text : Addr → List Addr → Bytes
header_text dst path = addr_text dst ++ path_text path []

header_text-all_of :
    (dst : Addr) (path : List Addr)
    → IsCanonical dst
    → All IsCanonical path
    → all_of is_header_char (header_text dst path) ≡ true
unfolding header_text
header_text-all_of dst path vd vp =
    all_of-append is_header_char (addr_text dst) _
      (all_of_mono is_addr_char is_header_char (λ c h. ground arith) (addr_text dst)
        (addr_text-all_of dst vd))
      (path_text-all_of path vp)

header_text-append :
    (dst : Addr) (path : List Addr) (xs : Bytes)
    → header_text dst path ++ xs ≡ addr_text dst ++ path_text path xs
unfolding header_text
header_text-append dst path xs =
    append_assoc (addr_text dst) (path_text path []) xs
    ∙ ap (◌++◌ (addr_text dst)) (path_text-append path [] xs)

line_text-header :
    (f : Frame)
    → line_text f
      ≡ addr_text (plain f.src)
        ++ (b'>' ∷ (header_text (plain f.dst) f.path ++ (b':' ∷ one_line f.payload)))
line_text-header f =
    ap (λ x. addr_text (plain f.src) ++ (b'>' ∷ x))
      (sym (header_text-append (plain f.dst) f.path _))

-- No character of a printed line is a CR, an LF or a NUL.
pub line_text-all_of : (f : Frame) → IsPrintable f → all_of is_line_char (line_text f) ≡ true
line_text-all_of f v = rw line_text-header (
    all_of-append is_line_char (addr_text (plain f.src)) _
      (all_of_mono is_addr_char is_line_char (λ c h. ground arith) (addr_text (plain f.src))
        (addr_text-all_of (plain f.src) (plain-IsCanonical f.src v.src_canonical)))
      (all_of-append is_line_char (header_text (plain f.dst) f.path) _
        (all_of_mono is_header_char is_line_char (λ c h. ground arith)
          (header_text (plain f.dst) f.path)
          (header_text-all_of (plain f.dst) f.path (plain-IsCanonical f.dst v.dst_canonical)
            v.path_canonical))
        (one_line-all_of f.payload v.no_nul)))

-- The frame as the reader of its line has it.
abbrev pub as_read : Frame → Frame
as_read f = record {
  dst = plain f.dst;
  src = plain f.src;
  path = f.path;
  payload = one_line f.payload;
}

pub parse_line-line_text : (f : Frame) → IsPrintable f → parse_line (line_text f) ≡ ok (as_read f)
unfolding parse_line
parse_line-line_text f v =
    let src = plain-IsCanonical f.src v.src_canonical in
    let dst = plain-IsCanonical f.dst v.dst_canonical in
    let short : leb 512 (length (line_text f)) ≡ false = ground (arith, length-line_text f v) in
    let fits : ltb max_payload (length (one_line f.payload)) ≡ false =
      ground (arith, length-one_line f.payload, v.payload_le) in
    rw
      (
        short,
        strip_eol-all_of (line_text f) (line_text-all_of f v),
        line_text-header f,
        cut-append b'>' (addr_text (plain f.src)) _
            (all_of-Lacks is_addr_char b'>' _ refl (addr_text-all_of (plain f.src) src)),
        addr_text-ne (plain f.src) src,
        cut-append b':' (header_text (plain f.dst) f.path) (one_line f.payload) (
            all_of-Lacks is_header_char b':' _ refl
              (header_text-all_of (plain f.dst) f.path dst v.path_canonical)),
        fits,
        addr_parse-addr_text (plain f.src) src,
      )
      (unfold header_text in
        rw (parse_path-path_text (plain f.dst) f.path dst v.path_canonical v.path_le))

-- A printable frame is formatted in the 512 bytes that every caller has, and parsing its line gives
-- the frame back, but for the repeated marks of destination and source, which are dropped, and
-- the CRs and LFs of the payload, which become spaces.
pub parse_line-format_line :
    (f : Frame) → IsPrintable f → format_line f max_line >>= parse_line ≡ ok (as_read f)
parse_line-format_line f v =
    rw (format_line-line_text f max_line v (omega (arith, length-line_text f v)))
      (parse_line-line_text f v)

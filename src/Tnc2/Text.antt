-- ===== src/Tnc2/Text.antt =====
-- tnc2.c: the text that the formatter writes.
use loraham_kiss_tnc.Base.{
  ℕ, suc, ◌+◌, ◌*◌, ◌≤◌, ◌<◌, ◌≡◌, refl, ◌∙◌, true, false, List, [], ◌∷◌, ◌++◌, ltb, ◌==◌, Bytes,
  length, length-append, append_assoc, append-nil, All, ap, ok, all_of, arith,
}
use loraham_kiss_tnc.Ax25.{max_repeaters, max_payload, Addr, Frame}
use loraham_kiss_tnc.Ax25.Address.{addr_text}
use loraham_kiss_tnc.Ax25.AddressText.{IsCanonical, addr_format-addr_text, length-addr_text}
use loraham_kiss_tnc.Ax25.RoundTrip.{plain}
use loraham_kiss_tnc.Tnc2.{
  append_mem, append_path, append_payload, one_line, is_not_nul, format_line, addr_size,
}

-- A frame that a text line can carry: canonical addresses, and a payload with no NUL.
pub record IsPrintable (f : Frame) : Type 0 where
  pub dst_canonical : IsCanonical f.dst
  pub src_canonical : IsCanonical f.src
  pub path_canonical : All IsCanonical f.path
  pub path_le : length f.path ≤ max_repeaters
  pub payload_le : length f.payload ≤ max_payload
  pub no_nul : all_of is_not_nul f.payload ≡ true

abbrev pub path_text : List Addr → Bytes → Bytes
path_text [] rest = rest
path_text (a ∷ path) rest = b',' ∷ (addr_text a ++ path_text path rest)

abbrev pub line_text : Frame → Bytes
line_text f =
    addr_text (plain f.src)
    ++ (b'>' ∷ (addr_text (plain f.dst) ++ path_text f.path (b':' ∷ one_line f.payload)))

pub plain-IsCanonical : (a : Addr) → IsCanonical a → IsCanonical (plain a)
plain-IsCanonical a v = record {
  valid = record {
    call_ne = v.valid.call_ne;
    call_le = v.valid.call_le;
    call_alnum = v.valid.call_alnum;
    ssid_lt = v.valid.ssid_lt;
  };
  upper = v.upper;
}

pub path_text-append :
    (path : List Addr) (xs ys : Bytes) → path_text path xs ++ ys ≡ path_text path (xs ++ ys)
path_text-append [] xs ys = refl
path_text-append (a ∷ path) xs ys = ap (◌∷◌ b',') (
    append_assoc (addr_text a) (path_text path xs) ys
    ∙ ap (◌++◌ (addr_text a)) (path_text-append path xs ys))

length-path_text :
    (path : List Addr) (rest : Bytes)
    → All IsCanonical path
    → length (path_text path rest) ≤ 11 * length path + length rest
length-path_text [] rest v = omega arith
length-path_text (a ∷ path) rest v = omega (
  arith,
  length-append (addr_text a) (path_text path rest),
  length-addr_text a v.0,
  length-path_text path rest v.1,
)

pub length-one_line : (bs : Bytes) → length (one_line bs) ≡ length bs
length-one_line [] = refl
length-one_line (b ∷ bs) = ap suc (length-one_line bs)

-- A line has at most 366 characters, so the 512 bytes that every caller has are enough.
pub length-line_text : (f : Frame) → IsPrintable f → length (line_text f) ≤ 366
length-line_text f v = omega (
  arith,
  length-append (addr_text (plain f.src))
      (b'>' ∷ (addr_text (plain f.dst) ++ path_text f.path (b':' ∷ one_line f.payload))),
  length-append (addr_text (plain f.dst)) (path_text f.path (b':' ∷ one_line f.payload)),
  length-addr_text (plain f.src) (plain-IsCanonical f.src v.src_canonical),
  length-addr_text (plain f.dst) (plain-IsCanonical f.dst v.dst_canonical),
  length-path_text f.path (b':' ∷ one_line f.payload) v.path_canonical,
  length-one_line f.payload,
)

append_mem-ok :
    (out : Bytes) (size : ℕ) (text : Bytes)
    → length out + length text < size
    → append_mem out size text ≡ ok (out ++ text)
append_mem-ok out size text h = ground arith

length-path_text_nil :
    (path : List Addr) (rest : Bytes)
    → length (path_text path rest) ≡ length (path_text path []) + length rest
length-path_text_nil path rest = rw (← path_text-append path [] rest, length-append) refl

append_path-ok :
    (path : List Addr) (out : Bytes) (size : ℕ)
    → All IsCanonical path
    → length out + length (path_text path []) < size
    → append_path path out size ≡ ok (out ++ path_text path [])
unfolding append_path
append_path-ok [] out size v h = rw append-nil
append_path-ok (a ∷ path) out size v h = rw (
  append_mem-ok out size (b',' ∷ []) (omega arith),
  addr_format-addr_text a v.0 addr_size (omega arith),
  append_mem-ok (out ++ b',' ∷ []) size (addr_text a) (
      omega
        (arith, length-append out (b',' ∷ []), length-append (addr_text a) (path_text path []))),
  append_path-ok path ((out ++ b',' ∷ []) ++ addr_text a) size v.1 (
      omega (
        arith,
        length-append out (b',' ∷ []),
        length-append (out ++ b',' ∷ []) (addr_text a),
        length-append (addr_text a) (path_text path []),
      )),
  append_assoc,
  append_assoc,
)

append_payload-ok :
    (bs out : Bytes) (size : ℕ)
    → length out + length (one_line bs) < size
    → append_payload bs out size ≡ ok (out ++ one_line bs)
append_payload-ok [] out size h = rw append-nil
append_payload-ok (b ∷ bs) out size h = append_mem-ok out size (one_line (b ∷ bs)) h

-- The line in its parts, up to the colon and behind it.
abbrev line_head : Frame → Bytes
line_head f = (addr_text (plain f.src) ++ b'>' ∷ []) ++ addr_text (plain f.dst)

line_text_parts :
    (f : Frame)
    → ((line_head f ++ path_text f.path []) ++ b':' ∷ []) ++ one_line f.payload ≡ line_text f
line_text_parts f = simp (append_assoc, path_text-append)

-- With more room than the line is long, a printable frame is written as exactly its line.
pub format_line-line_text :
    (f : Frame) (size : ℕ)
    → IsPrintable f
    → length (line_text f) < size
    → format_line f size ≡ ok (line_text f)
unfolding format_line
format_line-line_text f size v h =
    let whole = ap length (line_text_parts f) in
    let l5 =
      length-append ((line_head f ++ path_text f.path []) ++ b':' ∷ []) (one_line f.payload) in
    let l4 = length-append (line_head f ++ path_text f.path []) (b':' ∷ []) in
    let l3 = length-append (line_head f) (path_text f.path []) in
    let l2 = length-append (addr_text (plain f.src) ++ b'>' ∷ []) (addr_text (plain f.dst)) in
    let l1 = length-append (addr_text (plain f.src)) (b'>' ∷ []) in
    let s0 : (size == 0) ≡ false = ground arith in
    let s1 : ltb max_repeaters (length f.path) ≡ false = ground (arith, v.path_le) in
    let s2 : ltb max_payload (length f.payload) ≡ false = ground (arith, v.payload_le) in
    rw (
      s0,
      s1,
      s2,
      v.no_nul,
      addr_format-addr_text (plain f.src) (plain-IsCanonical f.src v.src_canonical) addr_size
          (omega arith),
      append_mem-ok [] size (addr_text (plain f.src)) (omega arith),
      append_mem-ok (addr_text (plain f.src)) size (b'>' ∷ []) (omega arith),
      addr_format-addr_text (plain f.dst) (plain-IsCanonical f.dst v.dst_canonical) addr_size
          (omega arith),
      append_mem-ok (addr_text (plain f.src) ++ b'>' ∷ []) size (addr_text (plain f.dst))
          (omega arith),
      append_path-ok f.path (line_head f) size v.path_canonical (omega arith),
      append_mem-ok (line_head f ++ path_text f.path []) size (b':' ∷ []) (omega arith),
      append_payload-ok f.payload ((line_head f ++ path_text f.path []) ++ b':' ∷ []) size
          (omega arith),
      line_text_parts f,
    )

-- ===== src/Tnc2/Valid.antt =====
-- tnc2.c: what the line parser lets through.
use loraham_kiss_tnc.Base.{
  ℕ, zero, suc, ◌≤◌, ◌≡◌, refl, true, List, [], ◌∷◌, ltb, leb, ◌==◌, Bytes, length, All, Bool-cases,
  inl, inr, Option, none, some, ok, ◌>>=◌, OnOk, OnOk-ok, OnOk-intro, bind-OnOk, guard-OnOk,
  err_format, err_long, all_of, cut, arith,
}
use loraham_kiss_tnc.Ax25.{max_repeaters, max_payload, Addr, Frame}
use loraham_kiss_tnc.Ax25.Address.{addr_parse}
use loraham_kiss_tnc.Ax25.AddressText.{IsCanonical, addr_parse-IsCanonical}
use loraham_kiss_tnc.Ax25.RoundTrip.{plain}
use loraham_kiss_tnc.Tnc2.{
  max_line, strip_eol, parse_digis, parse_behind, parse_path, parse_fields, parse_header,
  parse_station, parse_line, is_not_nul,
}
use loraham_kiss_tnc.Tnc2.Text.{IsPrintable, plain-IsCanonical}

addr_parse-OnOk : (text : Bytes) → OnOk IsCanonical (addr_parse text)
addr_parse-OnOk text =
    OnOk-intro IsCanonical (addr_parse text) (λ a e. addr_parse-IsCanonical text e)

-- A path of at most `left` canonical addresses.
record Digis (left : ℕ) (path : List Addr) : Type 0 where
  canonical : All IsCanonical path
  path_le : length path ≤ left

parse_digis-Digis : (left : ℕ) (text : Bytes) → OnOk (Digis left) (parse_digis left text)
unfolding parse_digis
parse_digis-Digis zero [] = record { canonical = tt; path_le = omega arith }
parse_digis-Digis (suc left) [] = record { canonical = tt; path_le = omega arith }
parse_digis-Digis zero (c ∷ cs) = tt
parse_digis-Digis (suc left) (c ∷ cs) =
    guard-OnOk (Digis (suc left)) (length (cut b',' (c ∷ cs)).0 == 0) err_format _ (λ _.
      bind-OnOk IsCanonical (Digis (suc left)) (addr_parse (cut b',' (c ∷ cs)).0) _
        (addr_parse-OnOk (cut b',' (c ∷ cs)).0)
        (λ a va.
          elim (cut b',' (c ∷ cs)).1
            as (λ behind. OnOk (Digis (suc left)) (elim behind [
              | none ↦ ok (a ∷ [])
              | some q ↦ (parse_digis left q >>= λ more. ok (a ∷ more))
            ])) [
              | none ↦ record { canonical = (va, tt); path_le = omega arith }
              | some q ↦
                  bind-OnOk (Digis left) (Digis (suc left)) (parse_digis left q) _
                    (parse_digis-Digis left q)
                    (λ more vm. record {
                      canonical = (va, vm.canonical);
                      path_le = omega (arith, vm.path_le);
                    })
            ]))

record Header (h : Addr × List Addr) : Type 0 where
  dst_canonical : IsCanonical h.0
  digis : Digis max_repeaters h.1

parse_behind-Header :
    (dst : Addr) (behind : Option Bytes) → IsCanonical dst → OnOk Header (parse_behind dst behind)
parse_behind-Header dst none v = record {
  dst_canonical = v;
  digis = record { canonical = tt; path_le = omega arith };
}
parse_behind-Header dst (some []) v = tt
parse_behind-Header dst (some (c ∷ cs)) v =
    bind-OnOk (Digis max_repeaters) Header (parse_digis max_repeaters (c ∷ cs)) _
      (parse_digis-Digis max_repeaters (c ∷ cs)) (λ path d. record { dst_canonical = v; digis = d })

parse_path-Header : (text : Bytes) → OnOk Header (parse_path text)
unfolding parse_path
parse_path-Header text = guard-OnOk Header (length text == 0) err_format _ (λ _.
    bind-OnOk IsCanonical Header (addr_parse (cut b',' text).0) _
      (addr_parse-OnOk (cut b',' text).0)
      (λ dst v. parse_behind-Header (plain dst) (cut b',' text).1 (plain-IsCanonical dst v)))

-- What stands behind the first `c` of a text with no NUL has none.
abbrev BehindNoNul : Option Bytes → Type 0
BehindNoNul none = Unit
BehindNoNul (some t) = all_of is_not_nul t ≡ true

cut-BehindNoNul : (c : ℕ) (s : Bytes) → all_of is_not_nul s ≡ true → BehindNoNul (cut c s).1
unfolding cut
cut-BehindNoNul c [] h = tt
cut-BehindNoNul c (x ∷ xs) h = elim (Bool-cases (x == c)) [
  | inl e ↦ rw e (ground arith)
  | inr e ↦ rw e (cut-BehindNoNul c xs (ground arith))
]

strip_eol-all_of :
    (cs : Bytes) → all_of is_not_nul cs ≡ true → all_of is_not_nul (strip_eol cs) ≡ true
unfolding strip_eol
strip_eol-all_of [] h = refl
strip_eol-all_of (c ∷ cs) h = ground (arith, strip_eol-all_of cs)

parse_fields-IsPrintable :
    (station header payload : Bytes)
    → all_of is_not_nul payload ≡ true
    → OnOk IsPrintable (parse_fields station header payload)
parse_fields-IsPrintable station header payload n =
    guard-OnOk IsPrintable (ltb max_payload (length payload)) err_long _ (λ fits.
      bind-OnOk IsCanonical IsPrintable (addr_parse station) _ (addr_parse-OnOk station) (λ src v.
        bind-OnOk Header IsPrintable (parse_path header) _ (parse_path-Header header) (λ h vh.
          record {
            dst_canonical = vh.dst_canonical;
            src_canonical = plain-IsCanonical src v;
            path_canonical = vh.digis.canonical;
            path_le = vh.digis.path_le;
            payload_le = ground arith;
            no_nul = n;
          })))

parse_header-IsPrintable :
    (station : Bytes) (h : Bytes × Option Bytes)
    → BehindNoNul h.1
    → OnOk IsPrintable (parse_header station h)
parse_header-IsPrintable station (header, none) n = tt
parse_header-IsPrintable station (header, some payload) n =
    parse_fields-IsPrintable station header payload n

parse_station-IsPrintable :
    (s : Bytes × Option Bytes) → BehindNoNul s.1 → OnOk IsPrintable (parse_station s)
parse_station-IsPrintable (station, none) n = tt
parse_station-IsPrintable (station, some behind) n =
    guard-OnOk IsPrintable (length station == 0) err_format _
      (λ _. parse_header-IsPrintable station (cut b':' behind) (cut-BehindNoNul b':' behind n))

-- Whatever line comes in (a C string, so without NUL), a frame that `tnc2_parse_line` accepts can be
-- carried by AX.25 and printed again: canonical addresses, at most 8 repeaters, at most 256
-- payload bytes, none of them NUL.
pub parse_line-IsPrintable :
    (line : Bytes) {f : Frame}
    → all_of is_not_nul line ≡ true
    → parse_line line ≡ ok f
    → IsPrintable f
unfolding parse_line
parse_line-IsPrintable line n e =
    OnOk-ok IsPrintable (parse_line line)
      (guard-OnOk IsPrintable (leb max_line (length line)) err_long _ (λ _.
        parse_station-IsPrintable (cut b'>' (strip_eol line))
          (cut-BehindNoNul b'>' (strip_eol line) (strip_eol-all_of line n))))
      e

-- ===== src/Ax25/AddressText.antt =====
-- ax25.c: the text form of an address, parsed back.
use loraham_kiss_tnc.Base.{
  ℕ, suc, ◌≤◌, ◌<◌, ◌≡◌, ◌≢◌, refl, Bool, true, false, not, ◌||◌, [], ◌∷◌, ◌++◌, map, ltb, leb,
  ◌==◌, if◌then◌else◌, Bytes, length, length-append, append_assoc, append-nil, All-append,
  Bool-cases, inl, inr, ap, Option, none, some, ok, ◌>>=◌, OnOk, OnOk-ok, bind-OnOk, guard-OnOk,
  err_format, err_long, all_of, is_alnum, is_digit, is_upper, to_upper, cut, Lacks, cut-Lacks,
  cut-append, strtol, decimal, arith,
}
use loraham_kiss_tnc.Ax25.{Addr, AddrIsValid}
use loraham_kiss_tnc.Ax25.Address.{
  strip_star, parse_ssid, parse_call, parse_starred, addr_parse, star_text, ssid_text, addr_text,
  addr_format,
}

-- A capital letter or a digit: the only characters of a call in the air.
abbrev pub is_call_char : ℕ → Bool
is_call_char c = is_digit c || is_upper c

-- A valid address in capitals.
pub record IsCanonical (a : Addr) : Type 0 where
  pub valid : AddrIsValid a
  pub upper : all_of is_call_char a.call ≡ true

upper-Lacks_star : (cs : Bytes) → all_of is_call_char cs ≡ true → Lacks b'*' cs
upper-Lacks_star [] h = tt
upper-Lacks_star (c ∷ cs) h = (ground arith, upper-Lacks_star cs (ground arith))

upper-Lacks :
    (x : ℕ) (cs : Bytes) → is_call_char x ≡ false → all_of is_call_char cs ≡ true → Lacks x cs
upper-Lacks x [] n h = tt
upper-Lacks x (c ∷ cs) n h = (λ e. ground arith, upper-Lacks x cs n (ground arith))

map-to_upper : (cs : Bytes) → all_of is_call_char cs ≡ true → map to_upper cs ≡ cs
map-to_upper [] h = refl
map-to_upper (c ∷ cs) h = ground (arith, map-to_upper cs)

strip_star-star : (cs : Bytes) → strip_star (cs ++ b'*' ∷ []) ≡ (true, cs)
unfolding strip_star
strip_star-star [] = refl
strip_star-star (c ∷ []) = refl
strip_star-star (c ∷ d ∷ cs) = rw (strip_star-star (d ∷ cs))

strip_star-Lacks : (cs : Bytes) → Lacks b'*' cs → strip_star cs ≡ (false, cs)
unfolding strip_star
strip_star-Lacks [] h = refl
strip_star-Lacks (c ∷ []) h = ground arith
strip_star-Lacks (c ∷ d ∷ cs) h = rw (strip_star-Lacks (d ∷ cs) h.1)

parse_ssid-decimal : (n : ℕ) → n < 16 → parse_ssid (some (decimal n)) ≡ ok n
parse_ssid-decimal n h = ground arith

ssid_text-Lacks : (n : ℕ) → n < 16 → Lacks b'*' (ssid_text n)
ssid_text-Lacks n h = elim (Bool-cases (n == 0)) [
  | inl e ↦ rw e tt
  | inr e ↦ rw e (elim (Bool-cases (ltb n 10)) [
    | inl small ↦ rw small (omega arith)
    | inr large ↦ rw large (let k : ltb n 100 ≡ true = ground arith in rw k (omega arith))
  ])
]

length-ssid_text : (n : ℕ) → n < 16 → length (ssid_text n) ≤ 3
length-ssid_text n h = ground arith

module _ (a : Addr) (v : IsCanonical a) where
  pub length-addr_text : (1 ≤ length (addr_text a)) × (length (addr_text a) ≤ 10)
  length-addr_text = ground (
    arith,
    length-append a.call (ssid_text a.ssid ++ star_text a.repeated),
    length-append (ssid_text a.ssid) (star_text a.repeated),
    length-ssid_text a.ssid v.valid.ssid_lt,
  )

  cut_ssid :
      cut b'-' (a.call ++ ssid_text a.ssid)
      ≡ (a.call, if a.ssid == 0 then none else some (decimal a.ssid))
  cut_ssid = elim (Bool-cases (a.ssid == 0)) [
    | inl e ↦ rw (e, append-nil, cut-Lacks b'-' a.call (upper-Lacks b'-' a.call refl v.upper))
    | inr e ↦ rw (e, cut-append b'-' a.call (decimal a.ssid) (upper-Lacks b'-' a.call refl v.upper))
  ]

  parse_call-canonical : parse_call a.call ≡ ok a.call
  parse_call-canonical = ground (arith, map-to_upper a.call)

  strip_star-addr_text : strip_star (addr_text a) ≡ (a.repeated, a.call ++ ssid_text a.ssid)
  strip_star-addr_text = elim (Bool-cases a.repeated) [
    | inl e ↦ rw (e, ← append_assoc, strip_star-star)
    | inr e ↦ rw (
      e,
      append-nil,
      strip_star-Lacks (a.call ++ ssid_text a.ssid) (
          All-append (λ x. x ≢ b'*') a.call _ (upper-Lacks b'*' a.call refl v.upper)
            (ssid_text-Lacks a.ssid v.valid.ssid_lt)),
    )
  ]

  -- The text of an address in capitals parses back to that address.
  pub addr_parse-addr_text : addr_parse (addr_text a) ≡ ok a
  unfolding addr_parse
  addr_parse-addr_text = ground (
    arith,
    length-addr_text,
    strip_star-addr_text,
    cut_ssid,
    parse_call-canonical,
    parse_ssid-decimal a.ssid v.valid.ssid_lt,
  )

  pub addr_format-addr_text : (size : ℕ) → 10 < size → addr_format a size ≡ ok (addr_text a)
  unfolding addr_format
  addr_format-addr_text size h = ground (arith, length-addr_text)

length-map-to_upper : (cs : Bytes) → length (map to_upper cs) ≡ length cs
length-map-to_upper [] = refl
length-map-to_upper (c ∷ cs) = ap suc (length-map-to_upper cs)

map-to_upper-upper :
    (cs : Bytes) → all_of is_alnum cs ≡ true → all_of is_call_char (map to_upper cs) ≡ true
map-to_upper-upper [] h = refl
map-to_upper-upper (c ∷ cs) h = ground (arith, map-to_upper-upper cs)

upper-alnum : (cs : Bytes) → all_of is_call_char cs ≡ true → all_of is_alnum cs ≡ true
upper-alnum [] h = refl
upper-alnum (c ∷ cs) h = ground (arith, upper-alnum cs)

record CallIsCanonical (call : Bytes) : Type 0 where
  call_ne : 1 ≤ length call
  call_le : length call ≤ 6
  upper : all_of is_call_char call ≡ true

abbrev Nibble : ℕ → Type 0
Nibble n = n < 16

parse_ssid-Nibble : (digits : Option Bytes) → OnOk Nibble (parse_ssid digits)
parse_ssid-Nibble none = omega arith
parse_ssid-Nibble (some []) = tt
parse_ssid-Nibble (some (d ∷ ds)) =
    guard-OnOk Nibble (not (all_of is_digit (d ∷ ds))) err_format _
      (λ _. guard-OnOk Nibble (ltb 15 (strtol 0 (d ∷ ds))) err_format _ (λ low. ground arith))

parse_call-IsCanonical : (call : Bytes) → OnOk CallIsCanonical (parse_call call)
parse_call-IsCanonical call =
    guard-OnOk CallIsCanonical (ltb (length call) 1 || ltb 6 (length call)) err_format _ (λ size.
      guard-OnOk CallIsCanonical (not (all_of is_alnum call)) err_format _ (λ alnum. record {
        call_ne = ground (arith, length-map-to_upper call);
        call_le = ground (arith, length-map-to_upper call);
        upper = map-to_upper-upper call (ground arith);
      }))

parse_starred-IsCanonical : (s : Bool × Bytes) → OnOk IsCanonical (parse_starred s)
parse_starred-IsCanonical (star, tmp) =
    bind-OnOk Nibble IsCanonical (parse_ssid (cut b'-' tmp).1) _
      (parse_ssid-Nibble (cut b'-' tmp).1)
      (λ ssid low.
        bind-OnOk CallIsCanonical IsCanonical (parse_call (cut b'-' tmp).0) _
          (parse_call-IsCanonical (cut b'-' tmp).0)
          (λ call c. record {
            valid = record {
              call_ne = c.call_ne;
              call_le = c.call_le;
              call_alnum = upper-alnum call c.upper;
              ssid_lt = low;
            };
            upper = c.upper;
          }))

-- Whatever text comes in, an address that `ax25_addr_parse` accepts is one that AX.25 can carry: one
-- to six capitals and digits, lower case raised, and an SSID from 0 to 15.
pub addr_parse-IsCanonical : (text : Bytes) {a : Addr} → addr_parse text ≡ ok a → IsCanonical a
unfolding addr_parse
addr_parse-IsCanonical text e =
    OnOk-ok IsCanonical (addr_parse text)
      (guard-OnOk IsCanonical (length text == 0) err_format _ (λ _.
        guard-OnOk IsCanonical (leb 16 (length text)) err_long _
          (λ _. parse_starred-IsCanonical (strip_star text))))
      e

-- An address in capitals is formatted whenever the buffer has more than 10 bytes, and parsing the
-- text gives the address back, its repeated mark included.
pub addr_parse-addr_format :
    (a : Addr) (size : ℕ) → IsCanonical a → 10 < size → addr_format a size >>= addr_parse ≡ ok a
addr_parse-addr_format a size v h = rw (addr_format-addr_text a v size h) (addr_parse-addr_text a v)

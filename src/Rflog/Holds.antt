-- ===== src/Rflog/Holds.antt =====
-- rflog.c: the parts of a line keep to the buffer, and hold printable text.
use loraham_kiss_tnc.Base.{
  ℕ, zero, suc, ◌+◌, ◌-◌, ◌/◌, ◌%◌, ◌≤◌, ◌<◌, ◌≡◌, refl, ap, ◌&&◌, [], ◌∷◌, ◌++◌, Option, none,
  some, ltb, ◌==◌, if_intro, ltb→lt, Bytes, length, length-append, take, codes, All, All-append,
  OnSome, arith,
}
use loraham_kiss_tnc.Rflog.{
  Line, shown_byte, shown, tnc2_summary, put, hex_digit, put_hex, put_ascii, summary_max,
  put_summary,
}

abbrev pub Printable : ℕ → Type 0
Printable c = (0x20 ≤ c) × (c < 0x7f)

abbrev pub IsByte : ℕ → Type 0
IsByte c = c < 256

pub take-All : (n : ℕ) (s : Bytes) → All Printable s → All Printable (take n s)
take-All zero s h = tt
take-All (suc n) [] h = tt
take-All (suc n) (c ∷ s) h = (h.0, take-All n s h.1)

pub take_short : (n : ℕ) (s : Bytes) → length s ≤ n → take n s ≡ s
take_short zero [] h = refl
take_short zero (c ∷ s) h = absurd (omega (arith, h))
take_short (suc n) [] h = refl
take_short (suc n) (c ∷ s) h = ap (λ t. c ∷ t) (take_short n s (omega (arith, h)))

pub length-take_long : (n : ℕ) (s : Bytes) → n ≤ length s → length (take n s) ≡ n
length-take_long zero s h = refl
length-take_long (suc n) [] h = absurd (omega (arith, h))
length-take_long (suc n) (c ∷ s) h = ap suc (length-take_long n s (omega (arith, h)))

pub shown-Printable : (s : Bytes) → All Printable (shown s)
shown-Printable [] = tt
shown-Printable (c ∷ s) = (ground arith, shown-Printable s)

-- The place is that behind the text, or past a buffer that the text fills.
pub record Holds (size : ℕ) (l : Line) : Type 0 where
  pub inside : l.pos < size → length l.text ≡ l.pos
  pub full : size ≤ l.pos → length l.text ≡ size - 1
  pub printable : All Printable l.text

module _ (size : ℕ) (some_room : 8 ≤ size) where
  pub length-put :
      (l : Line) (t : Bytes)
      → Holds size l
      → (l.pos + length t < size → length (put size l t).text ≡ l.pos + length t)
        × (size ≤ l.pos + length t → length (put size l t).text ≡ size - 1)
  unfolding put
  length-put l t h =
      let n = size - l.pos - 1 in
      ground (
        arith,
        h.inside,
        h.full,
        length-append l.text (take n t),
        take_short n t,
        length-take_long n t,
      )

  pub put-Printable :
      (l : Line) (t : Bytes)
      → All Printable l.text
      → All Printable t
      → All Printable (put size l t).text
  unfolding put
  put-Printable l t h k =
      if_intro (All Printable) (ltb l.pos size)
        (λ _.
          All-append Printable l.text (take (size - l.pos - 1) t) h
            (take-All (size - l.pos - 1) t k))
        (λ _. h)

  pub put-Holds :
      (l : Line) (t : Bytes) → Holds size l → All Printable t → Holds size (put size l t)
  unfolding put
  put-Holds l t h k =
      let (fits, cut_off) = length-put l t h in
      record { inside = fits; full = cut_off; printable = put-Printable l t h.printable k }

  pub put_hex-Holds :
      (s : Bytes) (l : Line) → All IsByte s → Holds size l → Holds size (put_hex size l s)
  unfolding put_hex
  put_hex-Holds [] l k h = h
  put_hex-Holds (c ∷ s) l k h =
      let two = hex_digit (c / 16) ∷ hex_digit (c % 16) ∷ [] in
      let l' : Line = record { text = l.text ++ two; pos = l.pos + 2 } in
      let byte = k.0 in
      if_intro (Holds size) (ltb (l.pos + 2) size)
        (λ room. put_hex-Holds s l' k.1 (record {
          inside = λ _.
              omega (arith, length-append l.text two, h.inside (omega (arith, ltb→lt _ _ room)));
          full = λ z. absurd (omega (arith, z, ltb→lt _ _ room));
          printable =
              All-append Printable l.text two h.printable (ground arith, (ground arith, tt));
        }))
        (λ _. h)

  pub put_ascii-Holds : (s : Bytes) (l : Line) → Holds size l → Holds size (put_ascii size l s)
  unfolding put_ascii
  put_ascii-Holds [] l h = h
  put_ascii-Holds (c ∷ s) l h =
      let one = shown_byte c ∷ [] in
      let l' : Line = record { text = l.text ++ one; pos = l.pos + 1 } in
      if_intro (Holds size) (ltb (l.pos + 1) size)
        (λ room. put_ascii-Holds s l' (record {
          inside = λ _.
              omega (arith, length-append l.text one, h.inside (omega (arith, ltb→lt _ _ room)));
          full = λ z. absurd (omega (arith, z, ltb→lt _ _ room));
          printable = All-append Printable l.text one h.printable (ground arith, tt);
        }))
        (λ _. h)

  pub tnc2_summary-Printable :
      (packet : Bytes) → OnSome (All Printable) (tnc2_summary summary_max packet)
  unfolding tnc2_summary
  tnc2_summary-Printable [] = tt
  tnc2_summary-Printable (a ∷ []) = tt
  tnc2_summary-Printable (a ∷ b ∷ []) = tt
  tnc2_summary-Printable (a ∷ b ∷ c ∷ text) =
      if_intro (OnSome (All Printable)) (a == 0x3c && b == 0xff && c == 0x01)
        (λ _. take-All 259 (shown text) (shown-Printable text)) (λ _. tt)

  pub put_summary-Holds :
      (l : Line) (o : Option Bytes)
      → Holds size l
      → OnSome (All Printable) o
      → Holds size (put_summary size l o)
  put_summary-Holds l none h k = h
  put_summary-Holds l (some text) h k =
      let l1 = put size l (codes " tnc2=\"") in
      let h1 = put-Holds l (codes " tnc2=\"") h (ground arith) in
      let h2 = put-Holds l1 text h1 k in put-Holds (put size l1 text) (codes "\"") h2 (ground arith)

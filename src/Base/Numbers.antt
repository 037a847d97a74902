-- ===== src/Base/Numbers.antt =====
-- What the source uses of the C library to read a number or to compare texts: isspace, strcmp and
-- strcasecmp for equality, and strtol, in a given base or, with base 0, in the one that the text's
-- prefix tells.
use Prim.Native.Nat.{ℕ, ◌+◌, ◌-◌, ◌*◌}
use mathlib.Core.Bool.{Bool, true, false, not, ◌&&◌, ◌||◌}
use mathlib.Core.List.{[], ◌∷◌}
use loraham_kiss_tnc.Base.Tests.{leb, ltb, ◌==◌, if◌then◌else◌}
use loraham_kiss_tnc.Base.Lists.{Bytes}
use loraham_kiss_tnc.Base.Text.{is_digit, is_lower, is_upper}

abbrev pub is_space : ℕ → Bool
is_space c = c == b' ' || leb 9 c && leb c 13

abbrev pub is_empty : Bytes → Bool
is_empty [] = true
is_empty (c ∷ s) = false

abbrev pub skip_space : Bytes → Bytes
skip_space [] = []
skip_space (c ∷ s) = let rest = skip_space s in if is_space c then rest else c ∷ s

-- strcmp against a text, for equality.
abbrev pub same_text : Bytes → Bytes → Bool
same_text [] [] = true
same_text [] (d ∷ t) = false
same_text (c ∷ s) [] = false
same_text (c ∷ s) (d ∷ t) = c == d && same_text s t

abbrev pub to_lower : ℕ → ℕ
to_lower c = if is_upper c then c + 32 else c

abbrev pub lower : Bytes → Bytes
lower [] = []
lower (c ∷ s) = to_lower c ∷ lower s

-- A digit's value; 36 for what is none.
abbrev pub digit_value : ℕ → ℕ
digit_value c =
    if is_digit c then c - 48 else if is_lower c then c - 87 else if is_upper c then c - 55 else 36

-- The digits of a base, from the value read so far: the value, and what stands behind them.
abbrev pub read_digits : ℕ → ℕ → Bytes → ℕ × Bytes
read_digits base n [] = (n, [])
read_digits base n (c ∷ s) =
    let more = read_digits base (n * base + digit_value c) s in
    if ltb (digit_value c) base then more else (n, c ∷ s)

-- What strtol reads: the sign, the value, and what stands behind it.
pub record Number : Type 0 where
  pub negative : Bool
  pub value : ℕ
  pub rest : Bytes

-- Digits, of which the first must be one; else nothing is read, and all of `text` is left.
abbrev pub read_number : Bytes → Bool → ℕ → Bytes → Number
read_number text negative base [] = record { negative = false; value = 0; rest = text }
read_number text negative base (c ∷ s) =
    if ltb (digit_value c) base
    then record {
      negative = negative;
      value = (read_digits base 0 (c ∷ s)).0;
      rest = (read_digits base 0 (c ∷ s)).1;
    }
    else record { negative = false; value = 0; rest = text }

-- The digit behind 0x, where there is one.
abbrev pub starts_hex : Bytes → Bool
starts_hex (z ∷ x ∷ c ∷ s) = z == b'0' && to_lower x == b'x' && ltb (digit_value c) 16
starts_hex s = false

abbrev pub behind_two : Bytes → Bytes
behind_two (a ∷ b ∷ s) = s
behind_two s = []

abbrev pub starts_octal : Bytes → Bool
starts_octal (z ∷ s) = z == b'0'
starts_octal s = false

-- Base 0 stands for the base that the text's prefix tells.
abbrev pub read_based : Bytes → Bool → ℕ → Bytes → Number
read_based text negative base s =
    if not (base == 0)
    then read_number text negative base s
    else if starts_hex s
    then read_number text negative 16 (behind_two s)
    else if starts_octal s
    then read_number text negative 8 s
    else read_number text negative 10 s

abbrev pub read_signed : Bytes → ℕ → Bytes → Number
read_signed text base [] = read_based text false base []
read_signed text base (c ∷ s) =
    if c == b'-'
    then read_based text true base s
    else if c == b'+'
    then read_based text false base s
    else read_based text false base (c ∷ s)

unfoldable pub read_long : ℕ → Bytes → Number
read_long base text = read_signed text base (skip_space text)

-- ===== src/Base/Text.antt =====
-- What the source uses of C's strings and character classes. A C string is the list of the
-- characters before its NUL; the classes are those of the "C" locale, the program sets no other.
use Prim.Native.Nat.{ℕ, ◌+◌, ◌-◌, ◌*◌, ◌/◌, ◌%◌}
use Prim.Native.Char.{code}
use Prim.Native.String.{String}
use mathlib.Core.Path.{◌≡◌, refl, ap}
use mathlib.Core.Logic.{◌≢◌}
use mathlib.Core.Bool.{Bool, true, false, ◌&&◌, ◌||◌}
use mathlib.Core.Option.{Option, none, some}
use mathlib.Core.List.{[], ◌∷◌, ◌++◌}
use native.Mathlib.Omega.{arith}
use loraham_kiss_tnc.Base.Tests.{leb, ltb, ◌==◌, if◌then◌else◌}
use loraham_kiss_tnc.Base.Lists.{Bytes, All}

-- The code points of a literal: its bytes, if it is ASCII.
abbrev pub codes : String → Bytes
codes String.[] = []
codes (String.◌∷◌ c s) = code c ∷ codes s

abbrev pub is_digit : ℕ → Bool
is_digit c = leb b'0' c && leb c b'9'

abbrev pub is_lower : ℕ → Bool
is_lower c = leb b'a' c && leb c b'z'

abbrev pub is_upper : ℕ → Bool
is_upper c = leb b'A' c && leb c b'Z'

abbrev pub is_alnum : ℕ → Bool
is_alnum c = is_digit c || is_upper c || is_lower c

abbrev pub to_upper : ℕ → ℕ
to_upper c = if is_lower c then c - 32 else c

-- Every character passes the test.
abbrev pub all_of : (ℕ → Bool) → Bytes → Bool
all_of p [] = true
all_of p (c ∷ cs) = p c && all_of p cs

-- strchr, where the source puts a NUL at the place found: the text before the first `c`, and the
-- text behind it where there is a `c`.
unfoldable pub cut : ℕ → Bytes → Bytes × Option Bytes
cut c [] = ([], none)
cut c (x ∷ xs) =
    let (before, behind) = cut c xs in if x == c then ([], some xs) else (x ∷ before, behind)

-- strtol in base 10 over a text of digits, from the value read so far.
abbrev pub strtol : ℕ → Bytes → ℕ
strtol n [] = n
strtol n (d ∷ ds) = strtol (n * 10 + (d - 48)) ds

-- printf's %u for a number below 1000.
abbrev pub decimal : ℕ → Bytes
decimal n =
    if ltb n 10
    then (48 + n) ∷ []
    else if ltb n 100
    then (48 + n / 10) ∷ (48 + n % 10) ∷ []
    else (48 + n / 100) ∷ (48 + n / 10 % 10) ∷ (48 + n % 10) ∷ []

-- A character does not stand in a text.
abbrev pub Lacks : ℕ → Bytes → Type 0
Lacks c = All (λ x. x ≢ c)

pub cut-Lacks : (c : ℕ) (s : Bytes) → Lacks c s → cut c s ≡ (s, none)
unfolding cut
cut-Lacks c [] h = refl
cut-Lacks c (x ∷ xs) h = ground (arith, cut-Lacks c xs h.1)

pub cut-append : (c : ℕ) (s t : Bytes) → Lacks c s → cut c (s ++ (c ∷ t)) ≡ (s, some t)
unfolding cut
cut-append c [] t h = ground arith
cut-append c (x ∷ xs) t h = ground (arith, cut-append c xs t h.1)

module _ (p : ℕ → Bool) where
  pub all_of-append :
      (s t : Bytes) → all_of p s ≡ true → all_of p t ≡ true → all_of p (s ++ t) ≡ true
  all_of-append [] t h k = k
  all_of-append (c ∷ s) t h k = ground (arith, all_of-append s t)

  -- A text of which every character passes a test lacks one that does not.
  pub all_of-Lacks : (x : ℕ) (s : Bytes) → p x ≡ false → all_of p s ≡ true → Lacks x s
  all_of-Lacks x [] n h = tt
  all_of-Lacks x (c ∷ s) n h = ((λ e. ground (arith, ap p e)), all_of-Lacks x s n (ground arith))

module _ (p q : ℕ → Bool) (below : (c : ℕ) → p c ≡ true → q c ≡ true) where
  pub all_of_mono : (s : Bytes) → all_of p s ≡ true → all_of q s ≡ true
  all_of_mono [] h = refl
  all_of_mono (c ∷ s) h = ground (arith, below c, all_of_mono s)

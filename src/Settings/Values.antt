-- ===== src/Settings/Values.antt =====
-- config.c, cli.c: the values of a key or an option. A number too large for a long is out of every
-- range that the code asks for, so that strtol's errno needs no place here.
use loraham_kiss_tnc.Base.{
  ℕ, ◌-◌, Bool, true, false, not, ◌&&◌, ◌||◌, [], ◌∷◌, Option, none, some, ltb, leb, ◌==◌,
  if◌then◌else◌, Bytes, length, take, codes, is_space, is_empty, skip_space, same_text, lower,
  Number, read_long, err_format, err_nospace, Result, ok, fail, ◌>>=◌,
}

abbrev pub drop_end_space : Bytes → Bytes
drop_end_space [] = []
drop_end_space (c ∷ s) =
    let rest = drop_end_space s in if is_space c && is_empty rest then [] else c ∷ rest

unfoldable pub trim : Bytes → Bytes
trim s = drop_end_space (skip_space s)

-- The range check; `-0` is 0.
abbrev pub in_range : ℕ → ℕ → Number → Result ℕ
in_range min max n =
    if n.negative && not (n.value == 0) || ltb n.value min || ltb max n.value
    then fail err_format
    else ok n.value

unfoldable pub parse_long_value : Bytes → ℕ → ℕ → Result ℕ
unfolding trim read_long
parse_long_value text min max =
    if is_empty text || not (is_empty (trim (read_long 0 text).rest))
    then fail err_format
    else in_range min max (read_long 0 text)

-- The option's number: nothing may stand behind it, not even a space.
unfoldable pub parse_int_arg : Bytes → ℕ → ℕ → Result ℕ
unfolding read_long
parse_int_arg text min max =
    if is_empty text || not (is_empty (read_long 0 text).rest)
    then fail err_format
    else in_range min max (read_long 0 text)

unfoldable pub parse_bool_value : Bytes → Result Bool
unfolding parse_long_value
parse_bool_value text =
    if same_text (lower text) (codes "true")
      || same_text (lower text) (codes "yes")
      || same_text (lower text) (codes "on")
    then ok true
    else if same_text (lower text) (codes "false")
        || same_text (lower text) (codes "no")
        || same_text (lower text) (codes "off")
    then ok false
    else parse_long_value text 0 1 >>= (λ n. ok (n == 1))

-- snprintf into a buffer of `size` bytes: what stands in it, and whether the text fitted.
unfoldable pub copy_string : ℕ → Bytes → Bytes × Result (Unit {0})
copy_string size src =
    (take (size - 1) src, if leb size (length src) then fail err_nospace else ok tt)

-- 0.001 and 10000.0.
abbrev pub freq_min : ℕ
freq_min = 1000000000

abbrev pub freq_max : ℕ
freq_max = 10000000000000000

abbrev pub double_in_range : ℕ → ℕ → ℕ → Result ℕ
double_in_range min max n = if ltb n min || ltb max n then fail err_format else ok n

-- strtod is a parameter: the number in units of 10^-12 and what stands behind it; `none` for a number
-- that is negative, not finite, or out of a double's range. Where nothing is a number it reads 0 and leaves all.
module _ (strtod : Bytes → Option (ℕ × Bytes)) where
  unfoldable pub parse_double_value : Bytes → ℕ → ℕ → Result ℕ
  unfolding trim
  parse_double_value text min max = if is_empty text then fail err_format else elim (strtod text) [
    | none ↦ fail err_format
    | some (n, rest) ↦ if is_empty (trim rest) then double_in_range min max n else fail err_format
  ]

  unfoldable pub parse_double_arg : Bytes → ℕ → ℕ → Result ℕ
  parse_double_arg text min max = if is_empty text then fail err_format else elim (strtod text) [
    | none ↦ fail err_format
    | some (n, rest) ↦ if is_empty rest then double_in_range min max n else fail err_format
  ]

  unfoldable pub parse_optional_freq : Bytes → Result (Option ℕ)
  unfolding parse_double_value
  parse_optional_freq value =
      if is_empty value
      then ok none
      else parse_double_value value freq_min freq_max >>= (λ n. ok (some n))

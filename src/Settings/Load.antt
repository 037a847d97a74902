-- ===== src/Settings/Load.antt =====
-- config.c: lhkt_config_parse_line and lhkt_config_load_file keep the ranges.
use loraham_kiss_tnc.Base.{
  ℕ, ◌+◌, Bool, true, false, ◌||◌, [], ◌∷◌, ◌++◌, Option, none, some, leb, ◌==◌, if_intro,
  if◌then◌else◌, Bytes, length, cut, is_empty, err_format, err_long, Result, ok, fail,
}
use loraham_kiss_tnc.Bridge.Shared.{Config}
use loraham_kiss_tnc.Settings.File.{
  key_of, set_value, set_key, parse_entry, parse_config_line, take_chunk, load_from, load_file,
  file_line_max,
}
use loraham_kiss_tnc.Settings.Kept.{Kept, set_value-Kept}
use loraham_kiss_tnc.Settings.Ranges.{InRange}
use loraham_kiss_tnc.Settings.Values.{trim}

module _ (inet_pton : Bytes → Option ℕ) (strtod : Bytes → Option (ℕ × Bytes)) where
  set_key-Kept :
      (cfg : Config) (key value : Bytes)
      → InRange cfg
      → Kept (set_key inet_pton strtod cfg key value)
  set_key-Kept cfg key value i =
      if_intro Kept (is_empty key) (λ _. i)
        (λ _.
          elim (key_of key)
            as (λ o. Kept (elim o as (λ _. Config × Result (Unit {0})) [
              | none ↦ (cfg, fail err_format)
              | some k ↦ set_value inet_pton strtod cfg k value
            ])) [ none ↦ i | some k ↦ set_value-Kept inet_pton strtod cfg k value i ])

  parse_entry-Kept :
      (cfg : Config) (line : Bytes) → InRange cfg → Kept (parse_entry inet_pton strtod cfg line)
  parse_entry-Kept cfg line i =
      if_intro Kept (is_empty line) (λ _. i)
        (λ _.
          elim (cut b'=' line).1
            as (λ o. Kept (elim o as (λ _. Config × Result (Unit {0})) [
              | none ↦ (cfg, fail err_format)
              | some value ↦ set_key inet_pton strtod cfg (trim (cut b'=' line).0) (trim value)
            ])) [
              | none ↦ i
              | some value ↦ set_key-Kept cfg (trim (cut b'=' line).0) (trim value) i
            ])

  parse_config_line-Kept :
      (cfg : Config) (line : Bytes)
      → InRange cfg
      → Kept (parse_config_line inet_pton strtod cfg line)
  unfolding parse_config_line
  parse_config_line-Kept cfg line i = parse_entry-Kept cfg (trim (cut b'#' line).0) i

  take_chunk-Kept :
      (cfg : Config) (chunk : Bytes) (at_eof : Bool)
      → InRange cfg
      → Kept (take_chunk inet_pton strtod cfg chunk at_eof)
  take_chunk-Kept cfg chunk at_eof i =
      let line = (cut 0 chunk).0 in
      elim (cut b'\n' line).1
        as (λ o. Kept (elim o as (λ _. Config × Result (Unit {0})) [
          | none ↦
              if at_eof then parse_config_line inet_pton strtod cfg line else (cfg, fail err_long)
          | some rest ↦ parse_config_line inet_pton strtod cfg line
        ])) [
          | none ↦ if_intro Kept at_eof (λ _. parse_config_line-Kept cfg line i) (λ _. i)
          | some rest ↦ parse_config_line-Kept cfg line i
        ]

  load_from-Kept :
      (file : Bytes) (cfg : Config) (chunk : Bytes)
      → InRange cfg
      → Kept (load_from inet_pton strtod cfg chunk file)
  unfolding load_from
  load_from-Kept [] cfg chunk i =
      if_intro Kept (is_empty chunk) (λ _. i) (λ _. take_chunk-Kept cfg chunk true i)
  load_from-Kept (b ∷ file) cfg chunk i =
      let (cfg', r) = take_chunk inet_pton strtod cfg (chunk ++ b ∷ []) false in
      let i' = take_chunk-Kept cfg (chunk ++ b ∷ []) false i in
      elim (b == b'\n' || leb file_line_max (length chunk + 2))
        as (λ k. Kept (elim k as (λ _. Config × Result (Unit {0})) [
          | false ↦ load_from inet_pton strtod cfg (chunk ++ b ∷ []) file
          | true ↦ elim r as (λ _. Config × Result (Unit {0})) [
            | fail e ↦ (cfg', fail e)
            | ok u ↦ load_from inet_pton strtod cfg' [] file
          ]
        ])) [
          | false ↦ load_from-Kept file cfg (chunk ++ b ∷ []) i
          | true ↦
              elim r
                as (λ r. Kept (elim r as (λ _. Config × Result (Unit {0})) [
                  | fail e ↦ (cfg', fail e)
                  | ok u ↦ load_from inet_pton strtod cfg' [] file
                ])) [ fail e ↦ i' | ok u ↦ load_from-Kept file cfg' [] i' ]
        ]

  -- Whatever bytes a configuration file holds, and wherever the reading stops with an error, a
  -- configuration that is in its ranges stays in them: every text fits its buffer with its NUL, and every
  -- number is within the limits of its key.
  pub load_file-Kept :
      (cfg : Config) (file : Option Bytes)
      → InRange cfg
      → Kept (load_file inet_pton strtod cfg file)
  unfolding load_file
  load_file-Kept cfg none i = i
  load_file-Kept cfg (some file) i = load_from-Kept file cfg [] i

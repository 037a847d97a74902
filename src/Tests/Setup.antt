-- ===== src/Tests/Setup.antt =====
-- The configuration at fixed inputs.
use loraham_kiss_tnc.Base.{
  ℕ, ◌≡◌, refl, true, false, [], ◌∷◌, Option, none, some, if◌then◌else◌, if_intro, Bytes, codes,
  cut, same_text, err_format, ok, fail, arith,
}
use loraham_kiss_tnc.Bridge.Shared.{config_zero}
use loraham_kiss_tnc.Settings.Bind.{bind_apply, config_defaults}
use loraham_kiss_tnc.Settings.File.{load_file}
use loraham_kiss_tnc.Settings.Network.{IsIpv4, Applied, bind_apply-Applied}
use loraham_kiss_tnc.Settings.Options.{opt_kiss_port, opt_verbose, cli_apply}
use loraham_kiss_tnc.Settings.Options.Start.{ParsedInRange, cli_apply-InRange}
use loraham_kiss_tnc.Settings.Values.{parse_long_value, parse_bool_value}

-- It knows two addresses.
abbrev inet_pton : Bytes → Option ℕ
inet_pton text =
    if same_text text (codes "127.0.0.1")
    then some 2130706433
    else if same_text text (codes "10.0.0.7")
    then some 167772167
    else none

-- It reads nothing.
abbrev strtod : Bytes → Option (ℕ × Bytes)
strtod text = some (0, text)

KnownAddress : Option ℕ → Type 0
KnownAddress o = (ip : ℕ) → o ≡ some ip → IsIpv4 ip

inet_pton-IsIpv4 : (text : Bytes) (ip : ℕ) → inet_pton text ≡ some ip → IsIpv4 ip
unfolding KnownAddress
inet_pton-IsIpv4 text =
    if_intro KnownAddress (same_text text (codes "127.0.0.1")) (λ _ ip h. ground arith)
      (λ _.
        if_intro KnownAddress (same_text text (codes "10.0.0.7")) (λ _ ip h. ground arith)
          (λ _ ip h. absurd cc))

-- 10.0.0.7/8 stands for 10.0.0.0/8.
network : (bind_apply inet_pton config_zero (codes "10.0.0.7/8")).0.bind_spec ≡ codes "10.0.0.0/8"
unfolding bind_apply cut
network = refl

no_prefix : (bind_apply inet_pton config_zero (codes "10.0.0.7/")).1 ≡ fail err_format
unfolding bind_apply cut
no_prefix = refl

bind_apply-Applied_example :
    Applied inet_pton config_zero
      (codes "10.0.0.7/8")
      (bind_apply inet_pton config_zero (codes "10.0.0.7/8"))
bind_apply-Applied_example =
    bind_apply-Applied inet_pton config_zero (codes "10.0.0.7/8") inet_pton-IsIpv4

hex : parse_long_value (codes "0x12 ") 0 255 ≡ ok 18
unfolding parse_long_value
hex = refl

octal : parse_long_value (codes "-010") 0 255 ≡ fail err_format
unfolding parse_long_value
octal = refl

truth : parse_bool_value (codes "Yes") ≡ ok true
unfolding parse_bool_value
truth = refl

abbrev file : Bytes
file = codes "# radio\nsf = 9 # fast\n\n tx_queue_len=4"

from_file : (load_file inet_pton strtod config_zero (some file)).0.sf ≡ 9
unfolding load_file cut
from_file = refl

abbrev files : Bytes → Option Bytes
files path = some file

cli_apply-InRange_example : ParsedInRange (
    cli_apply inet_pton strtod files
      (config_defaults inet_pton (λ _. false))
      (codes "-c" ∷ codes "tnc.conf" ∷ [])
      (opt_verbose ∷ opt_kiss_port (codes "8002") ∷ [])
      false)
cli_apply-InRange_example =
    cli_apply-InRange inet_pton strtod (λ _. false) files (codes "-c" ∷ codes "tnc.conf" ∷ [])
      (opt_verbose ∷ opt_kiss_port (codes "8002") ∷ []) false

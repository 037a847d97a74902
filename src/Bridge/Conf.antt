-- ===== src/Bridge/Conf.antt =====
-- bridge_conf.c, bridge_conf.h: the state that the daemon's CONF lines drive. The ints that hold 0 or 1
-- are Booleans, and `unsigned long` has 64 bits.
pub mod Lines
pub mod Counts
pub mod Cad
use loraham_kiss_tnc.Base.{
  ℕ, ◌+◌, Bool, true, false, not, ◌&&◌, ◌||◌, List, [], ◌∷◌, ◌++◌, Option, none, some, leb, ◌==◌,
  if◌then◌else◌, Bytes, length, codes, cut,
}
use loraham_kiss_tnc.Bridge.Shared.{bump}

abbrev pub conf_line_max : ℕ
conf_line_max = 512

-- What the lines set.
pub record Flags : Type 0 where
  pub tx_busy : Bool
  pub cad_busy : Bool
  pub radio_ready : Bool
  pub have_status : Bool
  pub txresult_known : Bool
  pub txresult_enabled : Bool
  pub tx_seq : ℕ
  pub tx_busy_seq : ℕ
  pub tx_idle_seq : ℕ
  pub cad_seq : ℕ
  pub cad_busy_seq : ℕ
  pub cad_idle_seq : ℕ

pub record ConfState : Type 0 where
  pub flags : Flags
  pub line : Bytes
  pub discard : Bool

abbrev pub flags_init : Flags
flags_init = record {
  tx_busy = false;
  cad_busy = false;
  radio_ready = false;
  have_status = false;
  txresult_known = false;
  txresult_enabled = false;
  tx_seq = 0;
  tx_busy_seq = 0;
  tx_idle_seq = 0;
  cad_seq = 0;
  cad_busy_seq = 0;
  cad_idle_seq = 0;
}

abbrev pub conf_state_init : ConfState
conf_state_init = record { flags = flags_init; line = []; discard = false }

abbrev pub txresult_on : ConfState → Bool
txresult_on st = st.flags.txresult_known && st.flags.txresult_enabled

-- strncmp with a prefix: what stands behind it in the text.
abbrev pub behind_prefix : Bytes → Bytes → Option Bytes
behind_prefix [] s = some s
behind_prefix (p ∷ ps) [] = none
behind_prefix (p ∷ ps) (c ∷ s) = if p == c then behind_prefix ps s else none

-- strstr: what stands behind the first place of a key.
abbrev pub behind_key : Bytes → Bytes → Option Bytes
behind_key key [] = behind_prefix key []
behind_key key (c ∷ s) =
    let later = behind_key key s in
    elim (behind_prefix key (c ∷ s)) [ some rest ↦ some rest | none ↦ later ]

abbrev pub has_key : Bytes → Bytes → Bool
has_key key s = elim (behind_key key s) [ some rest ↦ true | none ↦ false ]

-- A digit 1 or 0, with nothing behind it or with anything.
abbrev pub flag_only : Bytes → Option Bool
flag_only (c ∷ []) = if c == b'1' then some true else if c == b'0' then some false else none
flag_only _ = none

abbrev pub flag_first : Bytes → Option Bool
flag_first [] = none
flag_first (c ∷ s) = if c == b'1' then some true else if c == b'0' then some false else none

abbrev pub parse_flag_line : Bytes → Bytes → Option Bool
parse_flag_line line prefix = elim (behind_prefix prefix line) [
  | some rest ↦ flag_only rest
  | none ↦ none
]

abbrev pub status_flag_token : Bytes → Bytes → Option Bool
status_flag_token line key = elim (behind_key key line) [
  | some rest ↦ flag_first rest
  | none ↦ none
]

abbrev pub set_tx : Bool → Flags → Flags
set_tx value f =
    if value
    then record f { tx_busy = true; tx_seq = bump f.tx_seq; tx_busy_seq = bump f.tx_busy_seq }
    else record f { tx_busy = false; tx_seq = bump f.tx_seq; tx_idle_seq = bump f.tx_idle_seq }

abbrev pub set_cad : Bool → Flags → Flags
set_cad value f =
    if value
    then record f { cad_busy = true; cad_seq = bump f.cad_seq; cad_busy_seq = bump f.cad_busy_seq }
    else record f { cad_busy = false; cad_seq = bump f.cad_seq; cad_idle_seq = bump f.cad_idle_seq }

-- The parts of a STATUS line.
abbrev pub status_radio : Bytes → Flags → Flags
status_radio line f =
    if has_key (codes "RADIO=READY") line
    then record f { radio_ready = true }
    else if has_key (codes "RADIO=FAILED") line || has_key (codes "RADIO=UNINITIALIZED") line
    then record f { radio_ready = false }
    else f

abbrev pub status_tx : Option Bool → Flags → Flags
status_tx none f = f
status_tx (some value) f = record f { tx_busy = value }

abbrev pub status_cad : Option Bool → Flags → Flags
status_cad none f = f
status_cad (some value) f = record f { cad_busy = value }

abbrev pub status_txresult : Option Bool → Flags → Flags
status_txresult none f = f
status_txresult (some value) f = record f { txresult_known = true; txresult_enabled = value }

abbrev pub handle_status : Bytes → Flags → Flags
handle_status line f = status_txresult (status_flag_token line (codes "TXRESULT=")) (
    status_cad (status_flag_token line (codes "CAD=")) (
      status_tx (status_flag_token line (codes "TX="))
        (status_radio line (record f { have_status = true }))))

unfoldable pub handle_line : Flags → Bytes → Flags
handle_line f line = elim (parse_flag_line line (codes "TX=")) [
  | some value ↦ set_tx value f
  | none ↦ elim (parse_flag_line line (codes "CAD=")) [
    | some value ↦ set_cad value f
    | none ↦ elim (behind_prefix (codes "STATUS ") line) [
      | some _ ↦ handle_status line f
      | none ↦ f
    ]
  ]
]

-- The line's text as a C string: what stands before the first NUL.
unfoldable pub feed_byte : ConfState → ℕ → ConfState
feed_byte st c =
    if c == b'\r'
    then st
    else if c == b'\n'
    then if st.discard
      then record { flags = st.flags; line = []; discard = false }
      else record { flags = handle_line st.flags (cut 0 st.line).0; line = []; discard = false }
    else if st.discard
    then st
    else if leb conf_line_max (length st.line + 1)
    then record { flags = st.flags; line = []; discard = true }
    else record st { line = st.line ++ c ∷ [] }

unfoldable pub feed : ConfState → Bytes → ConfState
feed st [] = st
feed st (c ∷ bytes) = feed (feed_byte st c) bytes

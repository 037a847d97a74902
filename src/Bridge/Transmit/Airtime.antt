-- ===== src/Bridge/Transmit/Airtime.antt =====
-- bridge_loraham.c: on which frequency a packet is written, and where the radio is left.
use loraham_kiss_tnc.Base.{
  ℕ, ◌≡◌, Bool, true, false, List, [], ◌∷◌, if◌then◌else◌, Bytes, ok, fail, Result, Option, none,
  some, ◌⊎◌,
}
use loraham_kiss_tnc.Bridge.Radio.{tuned, slept, wrote, logged, Trace, tx_shift_needed}
use loraham_kiss_tnc.Bridge.Radio.Restore.{radio_freq}
use loraham_kiss_tnc.Bridge.Shared.{Config}
use loraham_kiss_tnc.Bridge.Transmit.{Sending}

-- Each packet was written with the radio on the transmit frequency, where that is not the receive
-- frequency.
abbrev pub WellSent : Config → Trace → Type 0
WellSent cfg [] = Unit
WellSent cfg (wrote packet b ∷ t) =
    (tx_shift_needed cfg ≡ true → radio_freq t ≡ cfg.tx_freq) × WellSent cfg t
WellSent cfg (tuned freq b ∷ t) = WellSent cfg t
WellSent cfg (slept ms b ∷ t) = WellSent cfg t
WellSent cfg (logged b packet ∷ t) = WellSent cfg t

-- The newest config line, with whether the CONF socket took it.
abbrev pub newest_line : Trace → Option (ℕ × Bool)
newest_line [] = none
newest_line (tuned freq b ∷ t) = some (freq, b)
newest_line (slept ms b ∷ t) = newest_line t
newest_line (wrote packet b ∷ t) = newest_line t
newest_line (logged b packet ∷ t) = newest_line t

-- The radio is on the receive frequency, or, where the two frequencies are the same, where it was.
abbrev pub IsHome : Config → ℕ → Option ℕ → Trace → Type 0
IsHome cfg rx start t =
    (radio_freq t ≡ some rx) ⊎ ((tx_shift_needed cfg ≡ false) × (radio_freq t ≡ start))

-- Behind a return to the receive frequency: home, unless it failed, with the line for that frequency the
-- newest, and refused.
abbrev pub Returned : Config → ℕ → Option ℕ → Result (Unit {0}) → Trace → Type 0
Returned cfg rx start (ok u) t = IsHome cfg rx start t
Returned cfg rx start (fail e) t = IsHome cfg rx start t ⊎ (newest_line t ≡ some (rx, false))

-- Where a call leaves a radio that was on `start`: behind a write, it was to return, and without one,
-- it may also stand where it was, and does when the call succeeds.
abbrev pub LeavesRadio : Config → ℕ → Option ℕ → Bool → Result (Unit {0}) → Trace → Type 0
LeavesRadio cfg rx start true r t = Returned cfg rx start r t
LeavesRadio cfg rx start false (ok u) t = radio_freq t ≡ start
LeavesRadio cfg rx start false (fail e) t =
    Returned cfg rx start (fail e) t ⊎ (radio_freq t ≡ start)

-- The packets that the DATA socket took, the newest first.
abbrev pub written : Trace → List Bytes
written [] = []
written (wrote packet true ∷ t) = packet ∷ written t
written (wrote packet false ∷ t) = written t
written (tuned freq b ∷ t) = written t
written (slept ms b ∷ t) = written t
written (logged b packet ∷ t) = written t

abbrev pub if_written : Bool → Bytes → List Bytes → List Bytes
if_written b packet before = if b then packet ∷ before else before

-- What a call leaves behind, from what was done before it.
pub record Sound (cfg : Config) (rx : ℕ) (packet : Bytes) (before : Trace) (s : Sending)
    : Type 0 where
  pub on_frequency : WellSent cfg s.world.trace
  pub radio : LeavesRadio cfg rx (radio_freq before) s.written s.result s.world.trace
  pub once : written s.world.trace ≡ if_written s.written packet (written before)
  pub told : s.result ≡ ok tt → s.written ≡ true

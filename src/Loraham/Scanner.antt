-- ===== src/Loraham/Scanner.antt =====
-- loraham_sock.c: `loraham_extract_tnc2`, the scanner that finds the text of LoRa-APRS packets. It
-- keeps the text read (`buf`), whether a header was seen, how many bytes of a header stand behind the
-- text (`hdr_len`), and the bytes received and not yet read (`pending`).
pub mod Packets
pub mod Bounds
use loraham_kiss_tnc.Base.{
  ℕ, zero, suc, ◌+◌, ◌-◌, Bool, true, false, not, ◌&&◌, ◌||◌, [], ◌∷◌, ◌++◌, ltb, leb, ◌==◌,
  if◌then◌else◌, Bytes, length, get_or, take, Code, err, err_long, err_nospace, Result, ok, fail,
  ◌>>=◌,
}
use loraham_kiss_tnc.Loraham.Packet.{hdr0, hdr}

abbrev pub max_line : ℕ
max_line = 512

abbrev pub rx_pending : ℕ
rx_pending = 1024

-- The state but for the pending bytes.
pub record Core : Type 0 where
  pub buf : Bytes
  pub seen_header : Bool
  pub hdr_len : ℕ

pub record RxState : Type 0 where
  pub core : Core
  pub pending : Bytes

-- What a call returns: 0, 1 with a line, or an error code.
pub data Outcome : Type 0 where
  nothing : Outcome
  line : Bytes → Outcome
  failed : Code → Outcome

-- One round of the loop: go on, return, or return an error with the whole state cleared.
pub data Step : Type 0 where
  next : Core → Step
  stop : Core → Outcome → Step
  reset : Code → Step

abbrev pub core_init : Core
core_init = record { buf = []; seen_header = false; hdr_len = 0 }

abbrev pub rx_state_init : RxState
rx_state_init = record { core = core_init; pending = [] }

abbrev pub hdr_byte : ℕ → ℕ
hdr_byte pos = get_or hdr pos 0

abbrev pub packet_clear : Core → Core
packet_clear st = record st { buf = []; seen_header = false; hdr_len = 0 }

abbrev pub append_payload : Core → ℕ → Result Core
append_payload st b =
    if leb (max_line - 1) (length st.buf)
    then fail err_long
    else ok (record st { buf = st.buf ++ b ∷ [] })

unfoldable pub append_bytes : Bytes → Core → Result Core
append_bytes [] st = ok st
append_bytes (b ∷ bs) st = append_payload st b >>= append_bytes bs

-- The bytes of a header that did not go on belong to the text.
unfoldable pub append_hdr_prefix : Core → Result Core
unfolding append_bytes
append_hdr_prefix st = append_bytes (take st.hdr_len hdr) st >>= λ s. ok (record s { hdr_len = 0 })

-- The end of the emitter, behind the flush of a partial header.
abbrev pub emit_text : ℕ → Bool → Core → Step
emit_text size keep st =
    if not st.seen_header || length st.buf == 0
    then next (record st {
      hdr_len = 0;
      seen_header = if not keep && length st.buf == 0 then false else st.seen_header;
    })
    else if leb size (length st.buf)
    then stop (packet_clear st) (failed err_nospace)
    else stop (record st { buf = []; hdr_len = 0; seen_header = keep }) (line st.buf)

-- A step from a call that may overflow the buffer.
abbrev pub or_reset : Result Core → (Core → Step) → Step
or_reset (ok st) k = k st
or_reset (fail e) k = reset e

unfoldable pub emit_tnc2 : ℕ → Bool → Bool → Core → Step
emit_tnc2 size flush keep st =
    if size == 0
    then stop st (failed err)
    else if flush && st.seen_header && ltb 0 st.hdr_len
    then or_reset (append_hdr_prefix st) (emit_text size keep)
    else emit_text size keep st

-- Before a header.
abbrev pub scan_header : Core → ℕ → Core
scan_header st b =
    if b == hdr_byte st.hdr_len
    then if st.hdr_len + 1 == 3
      then record { seen_header = true; buf = []; hdr_len = 0 }
      else record st { hdr_len = st.hdr_len + 1 }
    else if b == hdr0
    then record st { hdr_len = 1 }
    else record st { hdr_len = 0 }

-- A byte of the text, no header standing before it.
abbrev pub scan_text : ℕ → ℕ → Core → Step
scan_text size b st =
    if b == b'\r' || b == b'\n'
    then emit_tnc2 size true false st
    else if b == hdr0
    then next (record st { hdr_len = 1 })
    else or_reset (append_payload st b) next

unfoldable pub scan_byte : ℕ → Core → ℕ → Step
scan_byte size st b =
    if not st.seen_header
    then next (scan_header st b)
    else if ltb 0 st.hdr_len
    then if b == hdr_byte st.hdr_len
      then if st.hdr_len + 1 == 3
        then emit_tnc2 size false true (record st { hdr_len = st.hdr_len + 1 })
        else next (record st { hdr_len = st.hdr_len + 1 })
      else or_reset (append_hdr_prefix st) (scan_text size b)
    else scan_text size b st

-- The loop over the pending bytes; `last` is what the call does when they are used up.
unfoldable pub scan : ℕ → (Core → RxState × Outcome) → Core → Bytes → RxState × Outcome
scan size last st [] = last st
scan size last st (b ∷ bs) = elim (scan_byte size st b) [
  | next st' ↦ scan size last st' bs
  | stop st' o ↦ (record { core = st'; pending = bs }, o)
  | reset e ↦ (rx_state_init, failed e)
]

-- A step that ends a call with no byte pending.
abbrev pub settle : Step → RxState × Outcome
settle (next st) = (record { core = st; pending = [] }, nothing)
settle (stop st o) = (record { core = st; pending = [] }, o)
settle (reset e) = (rx_state_init, failed e)

-- At the end of the pending bytes: a call with no data and nothing pending flushes the line.
abbrev pub at_end : ℕ → Bool → Core → RxState × Outcome
at_end size flush st =
    if flush
    then settle (emit_tnc2 size true false st)
    else (record { core = st; pending = [] }, nothing)

unfoldable pub extract_tnc2 : RxState → Bytes → ℕ → RxState × Outcome
unfolding append_hdr_prefix emit_tnc2 scan_byte scan
extract_tnc2 st bytes size =
    if ltb (rx_pending - length st.pending) (length bytes)
    then (rx_state_init, failed err_long)
    else scan size (at_end size (length bytes == 0 && length st.pending == 0)) st.core
        (st.pending ++ bytes)

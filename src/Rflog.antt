-- ===== src/Rflog.antt =====
-- rflog.c: a line of the RF log, as it is put into a buffer of `size` bytes. The writing of the file is not
-- modelled, and neither is the printing of RSSI and SNR, whose texts are arguments.
pub mod Holds
pub mod Record
use loraham_kiss_tnc.Base.{
  ℕ, zero, suc, ◌+◌, ◌-◌, ◌/◌, ◌%◌, Bool, true, false, not, ◌&&◌, ◌||◌, [], ◌∷◌, ◌++◌, Option, none,
  some, ltb, leb, ◌==◌, if◌then◌else◌, Bytes, length, take, codes,
}

-- What stands in the buffer, and the place that the code counts, which runs past the end when a text
-- does not fit.
pub record Line : Type 0 where
  pub text : Bytes
  pub pos : ℕ

-- A byte as it is shown: quotes and backslashes would break the quoting.
abbrev pub is_shown : ℕ → Bool
is_shown c = leb 0x20 c && ltb c 0x7f && not (c == b'"') && not (c == b'\\')

abbrev pub shown_byte : ℕ → ℕ
shown_byte c = if is_shown c then c else b'.'

abbrev pub shown : Bytes → Bytes
shown [] = []
shown (c ∷ s) = shown_byte c ∷ shown s

-- lhkt_rflog_tnc2_summary with its buffer of `size` bytes.
unfoldable pub tnc2_summary : ℕ → Bytes → Option Bytes
tnc2_summary size (a ∷ b ∷ c ∷ text) =
    if a == 0x3c && b == 0xff && c == 0x01 then some (take (size - 1) (shown text)) else none
tnc2_summary size packet = none

-- snprintf at the place, with the room that is left.
unfoldable pub put : ℕ → Line → Bytes → Line
put size l t = record {
  text = if ltb l.pos size then l.text ++ take (size - l.pos - 1) t else l.text;
  pos = l.pos + length t;
}

abbrev pub hex_digit : ℕ → ℕ
hex_digit d = if ltb d 10 then 48 + d else 87 + d

unfoldable pub put_hex : ℕ → Line → Bytes → Line
put_hex size l [] = l
put_hex size l (c ∷ s) =
    let rest =
      put_hex size
        (record { text = l.text ++ hex_digit (c / 16) ∷ hex_digit (c % 16) ∷ []; pos = l.pos + 2 })
        s in
    if ltb (l.pos + 2) size then rest else l

unfoldable pub put_ascii : ℕ → Line → Bytes → Line
put_ascii size l [] = l
put_ascii size l (c ∷ s) =
    let rest = put_ascii size (record { text = l.text ++ shown_byte c ∷ []; pos = l.pos + 1 }) s in
    if ltb (l.pos + 1) size then rest else l

abbrev pub summary_max : ℕ
summary_max = 260

abbrev pub put_summary : ℕ → Line → Option Bytes → Line
put_summary size l none = l
put_summary size l (some text) =
    put size (put size (put size l (codes " tnc2=\"")) text) (codes "\"")

-- The end of the record: a line that does not fit is cut, and ends with an LF all the same.
abbrev pub close_record : ℕ → Line → Bytes
close_record size l = if leb size l.pos then take (size - 2) l.text ++ b'\n' ∷ [] else l.text

unfoldable pub append_tail : ℕ → Line → Bytes → Bytes
unfolding tnc2_summary put put_hex put_ascii
append_tail size l packet =
    let l1 = put_summary size l (tnc2_summary summary_max packet) in
    let l2 = put_hex size (put size l1 (codes " hex=")) packet in
    let l3 = put_ascii size (put size l2 (codes " ascii=\"")) packet in
    close_record size (put size l3 (codes "\"\n"))

-- printf's %zu.
abbrev pub digits : ℕ → ℕ → Bytes → Bytes
digits zero n acc = acc
digits (suc k) n acc = if ltb n 10 then (48 + n) ∷ acc else digits k (n / 10) ((48 + n % 10) ∷ acc)

abbrev pub size_text : ℕ → Bytes
size_text n = digits 20 n []

-- The start of a line, cut to the buffer, and the place behind it.
abbrev pub header : ℕ → Bytes → Line
header size t = record {
  text = take (size - 1) t;
  pos = if ltb (length t) size then length t else size - 1;
}

abbrev pub rx_header : Bytes → Bytes → Bytes → Bytes → Bytes
rx_header utc rssi snr packet =
    utc
    ++ codes " RX rssi="
    ++ rssi
    ++ codes " snr="
    ++ snr
    ++ codes " len="
    ++ size_text (length packet)

abbrev pub tx_header : Bytes → Bytes → Bytes → Bytes
tx_header utc outcome packet =
    utc
    ++ codes " TX rssi=- snr=- len="
    ++ size_text (length packet)
    ++ codes " outcome="
    ++ outcome

unfoldable pub format_rx : ℕ → Bytes → Bytes → Bytes → Bytes → Bytes
unfolding append_tail
format_rx size utc rssi snr packet =
    if ltb size 8 then [] else append_tail size (header size (rx_header utc rssi snr packet)) packet

unfoldable pub format_tx : ℕ → Bytes → Bytes → Bytes → Bytes
unfolding append_tail
format_tx size utc outcome packet =
    if ltb size 8 then [] else append_tail size (header size (tx_header utc outcome packet)) packet

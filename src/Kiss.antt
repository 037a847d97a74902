-- ===== src/Kiss.antt =====
-- kiss.c, kiss.h: the KISS byte-stream decoder, the KISS parameters and the data-frame encoder.
-- A buffer with its length is the list of the bytes stored; the bytes behind are never read.
pub mod Wire
pub mod Stream
use loraham_kiss_tnc.Base.{
  ℕ, ◌+◌, ◌/◌, ◌%◌, Bool, true, false, not, List, [], ◌∷◌, ◌++◌, ltb, leb, ◌==◌, if◌then◌else◌,
  Bytes, length, Code, err_long, err_format, err_nospace, Result, ok, fail, ◌>>=◌,
}

abbrev pub fend : ℕ
fend = 0xC0

abbrev pub fesc : ℕ
fesc = 0xDB

abbrev pub tfend : ℕ
tfend = 0xDC

abbrev pub tfesc : ℕ
tfesc = 0xDD

abbrev pub max_frame : ℕ
max_frame = 1024

abbrev pub cmd_data : ℕ
cmd_data = 0

pub record Frame : Type 0 where
  pub port : ℕ
  pub command : ℕ
  pub payload : Bytes

pub record Decoder : Type 0 where
  pub in_frame : Bool
  pub escaped : Bool
  pub buf : Bytes

pub record Params : Type 0 where
  pub txdelay : ℕ
  pub persistence : ℕ
  pub slottime : ℕ
  pub txtail : ℕ
  pub fullduplex : ℕ

-- What feeding one byte returns: 0, 1 with a frame, or an error code.
pub data Outcome : Type 0 where
  pending : Outcome
  complete : Frame → Outcome
  dropped : Code → Outcome

abbrev pub decoder_init : Decoder
decoder_init = record { in_frame = false; escaped = false; buf = [] }

abbrev pub params_init : Params
params_init = record { txdelay = 0; persistence = 0; slottime = 0; txtail = 0; fullduplex = 0 }

abbrev pub reset_frame : Decoder → Decoder
reset_frame dec = record dec { escaped = false; buf = [] }

abbrev pub drop_frame : Decoder → Decoder
drop_frame dec = record dec { in_frame = false; escaped = false; buf = [] }

abbrev pub make_frame : Bytes → Outcome
make_frame [] = pending
make_frame (cmd ∷ rest) =
    complete (record { port = cmd / 16 % 16; command = cmd % 16; payload = rest })

-- The end of the decoder step: store one unescaped byte, if there is room.
abbrev pub store : Decoder → ℕ → Decoder × Outcome
store dec byte =
    if leb max_frame (length dec.buf)
    then (drop_frame dec, dropped err_long)
    else (record dec { buf = dec.buf ++ byte ∷ [] }, pending)

unfoldable pub decode_byte : Decoder → ℕ → Decoder × Outcome
decode_byte dec byte =
    if byte == fend
    then if not dec.in_frame
      then (reset_frame (record dec { in_frame = true }), pending)
      else if dec.escaped
      then (record (drop_frame dec) { in_frame = true }, dropped err_format)
      else (reset_frame dec, make_frame dec.buf)
    else if not dec.in_frame
    then (dec, pending)
    else if dec.escaped
    then if byte == tfend
      then store (record dec { escaped = false }) fend
      else if byte == tfesc
      then store (record dec { escaped = false }) fesc
      else (drop_frame dec, dropped err_format)
    else if byte == fesc
    then (record dec { escaped = true }, pending)
    else store dec byte

-- An outcome joined to those that follow: `pending` is no event.
abbrev pub cons_event : Outcome → List Outcome → List Outcome
cons_event pending os = os
cons_event (complete f) os = complete f ∷ os
cons_event (dropped e) os = dropped e ∷ os

-- The decoder over the bytes of one or more reads, with the frames and errors in their order.
unfoldable pub decode_bytes : Decoder → Bytes → Decoder × List Outcome
decode_bytes dec [] = (dec, [])
decode_bytes dec (b ∷ bs) =
    let (d, o) = decode_byte dec b in let (d', os) = decode_bytes d bs in (d', cons_event o os)

-- `frame->data[0]` where there is one, else the old value.
abbrev pub first_or : Bytes → ℕ → ℕ
first_or [] old = old
first_or (v ∷ _) old = v

unfoldable pub handle_command : Params → Frame → Params
handle_command p f =
    if f.command == 1
    then record p { txdelay = first_or f.payload p.txdelay }
    else if f.command == 2
    then record p { persistence = first_or f.payload p.persistence }
    else if f.command == 3
    then record p { slottime = first_or f.payload p.slottime }
    else if f.command == 4
    then record p { txtail = first_or f.payload p.txtail }
    else if f.command == 5
    then record p { fullduplex = first_or f.payload p.fullduplex }
    else p

-- The output so far with one byte behind it, escaped where KISS wants that.
unfoldable pub put_escaped : ℕ → Bytes → ℕ → Result Bytes
put_escaped byte out size =
    if byte == fend
    then if ltb size (length out + 2) then fail err_nospace else ok (out ++ fesc ∷ tfend ∷ [])
    else if byte == fesc
    then if ltb size (length out + 2) then fail err_nospace else ok (out ++ fesc ∷ tfesc ∷ [])
    else if ltb size (length out + 1)
    then fail err_nospace
    else ok (out ++ byte ∷ [])

-- The loop over `data[0 .. data_len)`.
unfoldable pub put_all : Bytes → Bytes → ℕ → Result Bytes
put_all [] out size = ok out
put_all (b ∷ bs) out size = put_escaped b out size >>= λ o. put_all bs o size

-- The closing FEND.
abbrev pub close_frame : ℕ → Bytes → Result Bytes
close_frame size out = if ltb size (length out + 1) then fail err_nospace else ok (out ++ fend ∷ [])

unfoldable pub encode_data_frame : Bytes → ℕ → Result Bytes
unfolding put_escaped put_all
encode_data_frame bytes size = if ltb size 3 then fail err_nospace else do
  out ← put_escaped cmd_data (fend ∷ []) size
  all ← put_all bytes out size
  close_frame size all

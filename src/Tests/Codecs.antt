-- ===== src/Tests/Codecs.antt =====
-- kiss.c, ax25.c, tnc2.c at fixed inputs.
use loraham_kiss_tnc.Base.{
  ◌<◌, ◌≤◌, ◌≡◌, refl, true, [], ◌∷◌, ◌++◌, map, All, Bytes, length, leb, if◌then◌else◌, codes,
  err_format, err_nospace, cut, ok, fail, ◌>>=◌, ◌⊎◌, arith,
}
use loraham_kiss_tnc.Ax25.Address.{addr_parse, addr_format}
use loraham_kiss_tnc.Ax25.AddressText.{
  IsCanonical, addr_parse-IsCanonical, addr_parse-addr_text, addr_parse-addr_format,
}
use loraham_kiss_tnc.Ax25.Codec.{
  encode_addr, encode_path, decode_addrs, decode_addr, encode_ui, decode_ui,
}
use loraham_kiss_tnc.Ax25.RoundTrip.{
  frame_bytes, received, need, decode_ui-frame_bytes, encode_ui-decode_ui,
}
use loraham_kiss_tnc.Ax25.Valid.{FrameIsValid, decode_ui-IsValid}
use loraham_kiss_tnc.Kiss
use loraham_kiss_tnc.Kiss.{
  fend, fesc, tfend, tfesc, decoder_init, decode_byte, decode_bytes, encode_data_frame, Params,
  params_init, handle_command, dropped, cons_event,
}
use loraham_kiss_tnc.Kiss.Wire.{wire, encode_data_frame-wire}
use loraham_kiss_tnc.Kiss.Stream.{
  ready, IsValid, Fits, data_frame, wires, decode_bytes-Fits, decode_bytes-wire, decode_bytes-wires,
}
use loraham_kiss_tnc.Tests.Data.{
  station, aprs, wide, beacon, beacon_line, station-IsCanonical, beacon-IsValid, beacon-IsPrintable,
}
use loraham_kiss_tnc.Tnc2.{max_line, strip_eol, parse_path, parse_line, format_line}
use loraham_kiss_tnc.Tnc2.RoundTrip.{as_read, parse_line-line_text, parse_line-format_line}
use loraham_kiss_tnc.Tnc2.Text.{IsPrintable}
use loraham_kiss_tnc.Tnc2.Valid.{parse_line-IsPrintable}

-- A data frame with both special bytes in it, behind a broken frame.
broken : (decode_bytes decoder_init (fend ∷ 0 ∷ 1 ∷ fesc ∷ 1 ∷ 2 ∷ [])).1 ≡ dropped err_format ∷ []
unfolding decode_bytes decode_byte
broken = refl

special :
    encode_data_frame (fend ∷ fesc ∷ 7 ∷ []) 1024
    ≡ ok (fend ∷ 0 ∷ fesc ∷ tfend ∷ fesc ∷ tfesc ∷ 7 ∷ fend ∷ [])
unfolding encode_data_frame
special = refl

commanded :
    handle_command params_init (record { port = 0; command = 1; payload = 30 ∷ [] })
    ≡ record params_init { txdelay = 30 }
unfolding handle_command
commanded = refl

beacon_formatted : format_line beacon max_line ≡ ok beacon_line
unfolding format_line addr_format
beacon_formatted = refl

beacon_parsed : parse_line beacon_line ≡ ok beacon
unfolding parse_line cut strip_eol addr_parse parse_path
beacon_parsed = refl

-- An empty digipeater is refused behind the destination, but not at the end of the path.
empty_path_refused : parse_line (codes "DL1ABC>APRS,:x") ≡ fail err_format
unfolding parse_line cut strip_eol addr_parse parse_path
empty_path_refused = refl

trailing_comma_accepted : parse_line (codes "DL1ABC-7>APRS,WIDE1-1*,:>hi") ≡ ok beacon
unfolding parse_line cut strip_eol addr_parse parse_path
trailing_comma_accepted = refl

beacon_encoded : encode_ui beacon 384 >>= decode_ui ≡ ok beacon
unfolding encode_ui decode_ui encode_addr encode_path decode_addrs decode_addr
beacon_encoded = refl

-- A decoder in the middle of a frame.
abbrev midway : Kiss.Decoder
midway = record { in_frame = true; escaped = true; buf = 0 ∷ 5 ∷ [] }

midway-IsValid : IsValid midway
midway-IsValid = record { bounded = omega arith; idle_empty = λ e. cc; idle_plain = λ e. cc }

abbrev payload : Bytes
payload = fend ∷ fesc ∷ 7 ∷ []

decode_bytes-wire_example : decode_bytes midway (wire payload ++ 1 ∷ []) ≡ (
  (decode_bytes ready (1 ∷ [])).0,
  cons_event (decode_byte midway fend).1 (data_frame payload ∷ (decode_bytes ready (1 ∷ [])).1),
)
decode_bytes-wire_example = decode_bytes-wire midway payload (1 ∷ []) (omega arith)

decode_bytes-wires_example :
    decode_bytes ready (wires (payload ∷ (3 ∷ []) ∷ []))
    ≡ (ready, map data_frame (payload ∷ (3 ∷ []) ∷ []))
decode_bytes-wires_example =
    decode_bytes-wires (payload ∷ (3 ∷ []) ∷ []) (omega arith, (omega arith, tt))

decode_bytes-Fits_example :
    IsValid (decode_bytes midway payload).0 × All Fits (decode_bytes midway payload).1
decode_bytes-Fits_example = decode_bytes-Fits midway payload midway-IsValid

encode_data_frame-wire_example :
    encode_data_frame payload 16
    ≡ (if leb (length (wire payload)) 16 then ok (wire payload) else fail err_nospace)
encode_data_frame-wire_example = encode_data_frame-wire payload 16

encode_ui-decode_ui_example :
    ((384 < need beacon) × (encode_ui beacon 384 ≡ fail err_nospace))
    ⊎ ((need beacon ≤ 384)
        × ((bytes : Bytes) × (encode_ui beacon 384 ≡ ok bytes)
            × (length bytes ≡ need beacon)
            × (decode_ui bytes ≡ ok (received beacon))))
encode_ui-decode_ui_example = encode_ui-decode_ui beacon 384 beacon-IsValid

decode_ui-IsValid_example : FrameIsValid (received beacon)
decode_ui-IsValid_example =
    decode_ui-IsValid (frame_bytes beacon)
      (decode_ui-frame_bytes aprs station (wide ∷ []) (codes ">hi") beacon-IsValid)

addr_parse-IsCanonical_example : IsCanonical station
addr_parse-IsCanonical_example =
    addr_parse-IsCanonical (codes "DL1ABC-7") (addr_parse-addr_text station station-IsCanonical)

addr_parse-addr_format_example : addr_format station 16 >>= addr_parse ≡ ok station
addr_parse-addr_format_example = addr_parse-addr_format station 16 station-IsCanonical (omega arith)

parse_line-format_line_example : format_line beacon max_line >>= parse_line ≡ ok (as_read beacon)
parse_line-format_line_example = parse_line-format_line beacon beacon-IsPrintable

parse_line-IsPrintable_example : IsPrintable (as_read beacon)
parse_line-IsPrintable_example =
    parse_line-IsPrintable beacon_line refl (parse_line-line_text beacon beacon-IsPrintable)

-- ===== src/Loraham/Packet.antt =====
-- loraham_sock.c: the LoRa-APRS packet, three header bytes and a text line.
use loraham_kiss_tnc.Base.{
  ℕ, ◌+◌, [], ◌∷◌, ltb, if◌then◌else◌, Bytes, length, err_long, err_nospace, Result, ok, fail,
}
use loraham_kiss_tnc.Loraham.Framed.{tx_max}

abbrev pub hdr0 : ℕ
hdr0 = 0x3c

abbrev pub hdr1 : ℕ
hdr1 = 0xff

abbrev pub hdr2 : ℕ
hdr2 = 0x01

abbrev pub hdr : Bytes
hdr = hdr0 ∷ hdr1 ∷ hdr2 ∷ []

abbrev pub hdr_len : ℕ
hdr_len = 3

unfoldable pub build_aprs_packet : Bytes → ℕ → Result Bytes
build_aprs_packet tnc2 size =
    if ltb tx_max (hdr_len + length tnc2)
    then fail err_long
    else if ltb size (hdr_len + length tnc2)
    then fail err_nospace
    else ok (hdr0 ∷ hdr1 ∷ hdr2 ∷ tnc2)

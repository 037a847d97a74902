-- ===== src/Tests/Log.antt =====
-- rflog.c at fixed inputs.
use loraham_kiss_tnc.Base.{◌≡◌, refl, [], ◌∷◌, Bytes, codes, arith}
use loraham_kiss_tnc.Rflog.{format_rx, format_tx}
use loraham_kiss_tnc.Rflog.Record.{IsRecord, format-IsRecord}

-- A packet with its header, a letter and a quote.
abbrev packet : Bytes
packet = 0x3c ∷ 0xff ∷ 0x01 ∷ b'A' ∷ b'"' ∷ []

whole :
    format_tx 128 (codes "-") (codes "ok") packet
    ≡ codes "- TX rssi=- snr=- len=5 outcome=ok tnc2=\"A.\" hex=3cff014122 ascii=\"<..A.\"\n"
unfolding format_tx
whole = refl

cut_off : format_tx 32 (codes "-") (codes "ok") packet ≡ codes "- TX rssi=- snr=- len=5 outcom\n"
unfolding format_tx
cut_off = refl

format-IsRecord_example :
    IsRecord 64 (format_rx 64 (codes "-") (codes "-81.50") (codes "6.25") packet)
    × IsRecord 64 (format_tx 64 (codes "-") (codes "ok") packet)
format-IsRecord_example =
    format-IsRecord 64 (codes "-") (codes "-81.50") (codes "6.25") (codes "ok") packet (omega arith)
      (ground arith) (ground arith) (ground arith) (ground arith) (ground arith)

-- ===== src/Tests/Data.antt =====
-- The test data: a beacon from DL1ABC-7 to APRS by way of WIDE1-1, as in tests/test_ax25.c.
use loraham_kiss_tnc.Base.{Bool, [], ◌∷◌, refl, Bytes, codes, arith}
use loraham_kiss_tnc.Ax25.{Addr, Frame}
use loraham_kiss_tnc.Ax25.AddressText.{IsCanonical}
use loraham_kiss_tnc.Ax25.Valid.{FrameIsValid}
use loraham_kiss_tnc.Tnc2.Text.{IsPrintable}

abbrev pub station : Addr
station = record { call = codes "DL1ABC"; ssid = 7; repeated = Bool.false }

abbrev pub aprs : Addr
aprs = record { call = codes "APRS"; ssid = 0; repeated = Bool.false }

abbrev pub wide : Addr
wide = record { call = codes "WIDE1"; ssid = 1; repeated = Bool.true }

abbrev pub beacon : Frame
beacon = record { dst = aprs; src = station; path = wide ∷ []; payload = codes ">hi" }

abbrev pub beacon_line : Bytes
beacon_line = codes "DL1ABC-7>APRS,WIDE1-1*:>hi"

pub station-IsCanonical : IsCanonical station
station-IsCanonical = record {
  valid = record {
    call_ne = omega arith;
    call_le = omega arith;
    call_alnum = refl;
    ssid_lt = omega arith;
  };
  upper = refl;
}

pub aprs-IsCanonical : IsCanonical aprs
aprs-IsCanonical = record {
  valid = record {
    call_ne = omega arith;
    call_le = omega arith;
    call_alnum = refl;
    ssid_lt = omega arith;
  };
  upper = refl;
}

pub wide-IsCanonical : IsCanonical wide
wide-IsCanonical = record {
  valid = record {
    call_ne = omega arith;
    call_le = omega arith;
    call_alnum = refl;
    ssid_lt = omega arith;
  };
  upper = refl;
}

pub beacon-IsValid : FrameIsValid beacon
beacon-IsValid = record {
  dst_valid = aprs-IsCanonical.valid;
  src_valid = station-IsCanonical.valid;
  path_valid = (wide-IsCanonical.valid, tt);
  path_le = omega arith;
  payload_le = omega arith;
}

pub beacon-IsPrintable : IsPrintable beacon
beacon-IsPrintable = record {
  dst_canonical = aprs-IsCanonical;
  src_canonical = station-IsCanonical;
  path_canonical = (wide-IsCanonical, tt);
  path_le = omega arith;
  payload_le = omega arith;
  no_nul = refl;
}

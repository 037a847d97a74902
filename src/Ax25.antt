-- ===== src/Ax25.antt =====
-- ax25.h: an AX.25 address and a UI frame. `call` is the text before the NUL of the C array; the
-- bytes behind are zero there, since every writer clears the address first.
pub mod Address
pub mod Codec
pub mod Valid
pub mod Fields
pub mod RoundTrip
pub mod AddressText
use loraham_kiss_tnc.Base.{
  ℕ, ◌≤◌, ◌<◌, ◌≡◌, Bool, true, List, Bytes, length, all_of, is_alnum, is_digit, is_upper, ◌||◌,
}

abbrev pub max_repeaters : ℕ
max_repeaters = 8

abbrev pub max_addrs : ℕ
max_addrs = 10

abbrev pub max_payload : ℕ
max_payload = 256

abbrev pub max_frame : ℕ
max_frame = 384

pub record Addr : Type 0 where
  pub call : Bytes
  pub ssid : ℕ
  pub repeated : Bool

pub record Frame : Type 0 where
  pub dst : Addr
  pub src : Addr
  pub path : List Addr
  pub payload : Bytes

-- An address as AX.25 can carry it: one to six letters and digits, an SSID of four bits.
pub record AddrIsValid (a : Addr) : Type 0 where
  pub call_ne : 1 ≤ length a.call
  pub call_le : length a.call ≤ 6
  pub call_alnum : all_of is_alnum a.call ≡ true
  pub ssid_lt : a.ssid < 16

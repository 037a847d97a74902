-- ===== src/Kiss/Wire.antt =====
-- kiss.c: what the encoder writes, and when it has room for it.
use loraham_kiss_tnc.Base.{
  ℕ, ◌+◌, ◌≤◌, ◌≡◌, [], ◌∷◌, ◌++◌, append-nil, append_assoc, leb, ◌==◌, if◌then◌else◌, Bytes,
  length, length-append, err_nospace, ok, fail, arith,
}
use loraham_kiss_tnc.Kiss.{
  fend, fesc, tfend, tfesc, cmd_data, put_escaped, put_all, encode_data_frame,
}

-- One byte, and a list of them, as they stand between two FENDs.
unfoldable pub escape_byte : ℕ → Bytes
escape_byte b =
    if b == fend then fesc ∷ tfend ∷ [] else if b == fesc then fesc ∷ tfesc ∷ [] else b ∷ []

abbrev pub escape : Bytes → Bytes
escape [] = []
escape (b ∷ bs) = escape_byte b ++ escape bs

-- The whole frame: FEND, the command byte, the escaped data, FEND.
abbrev pub wire : Bytes → Bytes
wire bytes = fend ∷ cmd_data ∷ (escape bytes ++ fend ∷ [])

put_escaped-escape_byte :
    (b : ℕ) (out : Bytes) (size : ℕ)
    → put_escaped b out size ≡ (
        if leb (length out + length (escape_byte b)) size
        then ok (out ++ escape_byte b)
        else fail err_nospace)
unfolding put_escaped escape_byte
put_escaped-escape_byte b out size = ground arith

put_all-escape :
    (bs out : Bytes) (size : ℕ)
    → length out ≤ size
    → put_all bs out size ≡ (
        if leb (length out + length (escape bs)) size
        then ok (out ++ escape bs)
        else fail err_nospace)
unfolding put_all
put_all-escape [] out size h = ground (arith, append-nil out)
put_all-escape (b ∷ bs) out size h = ground (
  arith,
  put_escaped-escape_byte b out size,
  put_all-escape bs (out ++ escape_byte b) size,
  length-append out (escape_byte b),
  length-append (escape_byte b) (escape bs),
  append_assoc out (escape_byte b) (escape bs),
)

-- With a room of `size` bytes the encoder writes exactly the frame `wire bytes` if that fits, and
-- else fails with the code for no space; the test for three bytes at its head refuses nothing more.
pub encode_data_frame-wire :
    (bytes : Bytes) (size : ℕ)
    → encode_data_frame bytes size
      ≡ (if leb (length (wire bytes)) size then ok (wire bytes) else fail err_nospace)
unfolding encode_data_frame escape_byte
encode_data_frame-wire bytes size = ground (
  arith,
  put_escaped-escape_byte cmd_data (fend ∷ []) size,
  put_all-escape bytes (fend ∷ cmd_data ∷ []) size,
  length-append (escape bytes) (fend ∷ []),
)

-- ===== src/Bridge/Conf/Counts.antt =====
-- bridge_conf.c: the counts of the TX and CAD lines, and the line buffer.
use loraham_kiss_tnc.Base.{
  ℕ, ◌+◌, ◌%◌, ◌^◌, ◌<◌, ◌≡◌, Bool, true, false, ◌||◌, [], ◌∷◌, Option, none, some, leb, ◌==◌,
  if_intro, Bytes, length, length-append, codes, cut, arith,
}
use loraham_kiss_tnc.Bridge.Conf.{
  conf_line_max, Flags, ConfState, has_key, behind_prefix, parse_flag_line, status_flag_token,
  status_radio, status_tx, status_cad, status_txresult, handle_status, handle_line, feed_byte, feed,
  set_tx, set_cad,
}

-- Each count of events is the sum of those for busy and for idle, as 64-bit numbers.
pub record CountsAreValid (f : Flags) : Type 0 where
  pub tx_sum : f.tx_seq ≡ (f.tx_busy_seq + f.tx_idle_seq) % 2 ^ 64
  pub cad_sum : f.cad_seq ≡ (f.cad_busy_seq + f.cad_idle_seq) % 2 ^ 64

pub record IsValid (st : ConfState) : Type 0 where
  pub counts : CountsAreValid st.flags
  pub line_lt : length st.line < conf_line_max

set_tx-CountsAreValid :
    (value : Bool) (f : Flags) → CountsAreValid f → CountsAreValid (set_tx value f)
set_tx-CountsAreValid true f v = record { tx_sum = omega (arith, v.tx_sum); cad_sum = v.cad_sum }
set_tx-CountsAreValid false f v = record { tx_sum = omega (arith, v.tx_sum); cad_sum = v.cad_sum }

set_cad-CountsAreValid :
    (value : Bool) (f : Flags) → CountsAreValid f → CountsAreValid (set_cad value f)
set_cad-CountsAreValid true f v = record { tx_sum = v.tx_sum; cad_sum = omega (arith, v.cad_sum) }
set_cad-CountsAreValid false f v = record { tx_sum = v.tx_sum; cad_sum = omega (arith, v.cad_sum) }

status_radio-CountsAreValid :
    (line : Bytes) (f : Flags) → CountsAreValid f → CountsAreValid (status_radio line f)
status_radio-CountsAreValid line f v =
    if_intro CountsAreValid (has_key (codes "RADIO=READY") line)
      (λ _. record { tx_sum = v.tx_sum; cad_sum = v.cad_sum })
      (λ _.
        if_intro CountsAreValid
          (has_key (codes "RADIO=FAILED") line || has_key (codes "RADIO=UNINITIALIZED") line)
          (λ _. record { tx_sum = v.tx_sum; cad_sum = v.cad_sum }) (λ _. v))

status_tx-CountsAreValid :
    (o : Option Bool) (f : Flags) → CountsAreValid f → CountsAreValid (status_tx o f)
status_tx-CountsAreValid none f v = v
status_tx-CountsAreValid (some value) f v = record { tx_sum = v.tx_sum; cad_sum = v.cad_sum }

status_cad-CountsAreValid :
    (o : Option Bool) (f : Flags) → CountsAreValid f → CountsAreValid (status_cad o f)
status_cad-CountsAreValid none f v = v
status_cad-CountsAreValid (some value) f v = record { tx_sum = v.tx_sum; cad_sum = v.cad_sum }

status_txresult-CountsAreValid :
    (o : Option Bool) (f : Flags) → CountsAreValid f → CountsAreValid (status_txresult o f)
status_txresult-CountsAreValid none f v = v
status_txresult-CountsAreValid (some value) f v = record { tx_sum = v.tx_sum; cad_sum = v.cad_sum }

handle_status-CountsAreValid :
    (line : Bytes) (f : Flags) → CountsAreValid f → CountsAreValid (handle_status line f)
handle_status-CountsAreValid line f v =
    status_txresult-CountsAreValid (status_flag_token line (codes "TXRESULT=")) _ (
      status_cad-CountsAreValid (status_flag_token line (codes "CAD=")) _ (
        status_tx-CountsAreValid (status_flag_token line (codes "TX=")) _ (
          status_radio-CountsAreValid line (record f { have_status = true })
            (record { tx_sum = v.tx_sum; cad_sum = v.cad_sum }))))

handle_line-CountsAreValid :
    (f : Flags) (line : Bytes) → CountsAreValid f → CountsAreValid (handle_line f line)
unfolding handle_line
handle_line-CountsAreValid f line v =
    elim (parse_flag_line line (codes "TX="))
      as (λ o. CountsAreValid (elim o as (λ _. Flags) [
        | some value ↦ set_tx value f
        | none ↦ elim (parse_flag_line line (codes "CAD=")) as (λ _. Flags) [
          | some value ↦ set_cad value f
          | none ↦ elim (behind_prefix (codes "STATUS ") line) as (λ _. Flags) [
            | some _ ↦ handle_status line f
            | none ↦ f
          ]
        ]
      ])) [
        | some value ↦ set_tx-CountsAreValid value f v
        | none ↦
            elim (parse_flag_line line (codes "CAD="))
              as (λ o. CountsAreValid (elim o as (λ _. Flags) [
                | some value ↦ set_cad value f
                | none ↦ elim (behind_prefix (codes "STATUS ") line) as (λ _. Flags) [
                  | some _ ↦ handle_status line f
                  | none ↦ f
                ]
              ])) [
                | some value ↦ set_cad-CountsAreValid value f v
                | none ↦
                    elim (behind_prefix (codes "STATUS ") line)
                      as (λ o.
                        CountsAreValid
                          (elim o as (λ _. Flags) [ some _ ↦ handle_status line f | none ↦ f ])) [
                            | some rest ↦ handle_status-CountsAreValid line f v
                            | none ↦ v
                          ]
              ]
      ]

feed_byte-IsValid : (st : ConfState) (c : ℕ) → IsValid st → IsValid (feed_byte st c)
unfolding feed_byte
feed_byte-IsValid st c v =
    if_intro IsValid (c == b'\r') (λ _. v)
      (λ _.
        if_intro IsValid (c == b'\n')
          (λ _.
            if_intro IsValid st.discard (λ _. record { counts = v.counts; line_lt = omega arith })
              (λ _. record {
                counts = handle_line-CountsAreValid st.flags (cut 0 st.line).0 v.counts;
                line_lt = omega arith;
              }))
          (λ _.
            if_intro IsValid st.discard (λ _. v)
              (λ _.
                if_intro IsValid (leb conf_line_max (length st.line + 1))
                  (λ _. record { counts = v.counts; line_lt = omega arith })
                  (λ room. record {
                    counts = v.counts;
                    line_lt = ground (arith, length-append st.line (c ∷ []));
                  }))))

-- From a valid state, whatever bytes the daemon sends, the line never outgrows its buffer of 512 bytes with its NUL,
-- and each count of events stays the sum of those for busy and for idle, modulo 2 ^ 64.
pub feed-IsValid : (st : ConfState) (bytes : Bytes) → IsValid st → IsValid (feed st bytes)
unfolding feed
feed-IsValid st [] v = v
feed-IsValid st (c ∷ bytes) v = feed-IsValid (feed_byte st c) bytes (feed_byte-IsValid st c v)

-- ===== src/Loraham/Scanner/Bounds.antt =====
-- loraham_sock.c: what the scanner keeps and returns, whatever bytes come in.
use loraham_kiss_tnc.Base.{
  ℕ, zero, suc, ◌+◌, ◌-◌, ◌≤◌, ◌<◌, ◌≡◌, refl, Bool, true, false, not, ◌&&◌, ◌||◌, [], ◌∷◌, ◌++◌,
  ltb, leb, ◌==◌, if_intro, Bytes, length, length-append, take, all_of, all_of-append, Result, ok,
  fail, OnOk, bind-OnOk, guard-OnOk, err_long, arith,
}
use loraham_kiss_tnc.Loraham.Packet.{hdr0, hdr}
use loraham_kiss_tnc.Loraham.Scanner.{
  max_line, rx_pending, Core, RxState, Outcome, nothing, line, failed, Step, next, stop, reset,
  core_init, rx_state_init, hdr_byte, scan_header, scan_text, append_payload, append_bytes,
  append_hdr_prefix, emit_text, or_reset, emit_tnc2, scan_byte, scan, settle, at_end, extract_tnc2,
}
use loraham_kiss_tnc.Loraham.Scanner.Packets.{is_line_byte}

-- The text fits its buffer with its NUL, and holds no CR or LF.
pub record CoreIsValid (st : Core) : Type 0 where
  pub buf_le : length st.buf ≤ 511
  pub hdr_le : st.hdr_len ≤ 2
  pub clean : all_of is_line_byte st.buf ≡ true

pub record IsValid (st : RxState) : Type 0 where
  pub core_valid : CoreIsValid st.core
  pub pending_le : length st.pending ≤ rx_pending

-- A line that a caller with a buffer of `size` bytes can take.
pub record LineIsValid (size : ℕ) (t : Bytes) : Type 0 where
  pub ne : 0 < length t
  pub lt : length t < size
  pub clean : all_of is_line_byte t ≡ true

abbrev pub OutcomeIsValid : ℕ → Outcome → Type 0
OutcomeIsValid size nothing = Unit
OutcomeIsValid size (line t) = LineIsValid size t
OutcomeIsValid size (failed e) = Unit

module _ (size : ℕ) where
  abbrev StepIsValid : Step → Type 0
  StepIsValid (next st) = CoreIsValid st
  StepIsValid (stop st o) = CoreIsValid st × OutcomeIsValid size o
  StepIsValid (reset e) = Unit

  abbrev CallIsValid : RxState × Outcome → Type 0
  CallIsValid (st, o) = IsValid st × OutcomeIsValid size o

core_init-IsValid : CoreIsValid core_init
core_init-IsValid = record { buf_le = omega arith; hdr_le = omega arith; clean = refl }

append_payload-IsValid :
    (st : Core) (b : ℕ)
    → is_line_byte b ≡ true
    → CoreIsValid st
    → OnOk CoreIsValid (append_payload st b)
append_payload-IsValid st b e v =
    guard-OnOk CoreIsValid (leb (max_line - 1) (length st.buf)) err_long _ (λ room. record {
      buf_le = ground (arith, length-append st.buf (b ∷ []));
      hdr_le = v.hdr_le;
      clean = all_of-append is_line_byte st.buf (b ∷ []) v.clean (ground arith);
    })

append_bytes-IsValid :
    (bs : Bytes) (st : Core)
    → all_of is_line_byte bs ≡ true
    → CoreIsValid st
    → OnOk CoreIsValid (append_bytes bs st)
unfolding append_bytes
append_bytes-IsValid [] st e v = v
append_bytes-IsValid (b ∷ bs) st e v =
    bind-OnOk CoreIsValid CoreIsValid (append_payload st b) (append_bytes bs)
      (append_payload-IsValid st b (ground arith) v)
      (λ s w. append_bytes-IsValid bs s (ground arith) w)

all_of-take : (n : ℕ) → all_of is_line_byte (take n hdr) ≡ true
all_of-take zero = refl
all_of-take (suc zero) = refl
all_of-take (suc (suc zero)) = refl
all_of-take (suc (suc (suc zero))) = refl
all_of-take (suc (suc (suc (suc n)))) = refl

append_hdr_prefix-IsValid : (st : Core) → CoreIsValid st → OnOk CoreIsValid (append_hdr_prefix st)
unfolding append_hdr_prefix
append_hdr_prefix-IsValid st v =
    bind-OnOk CoreIsValid CoreIsValid (append_bytes (take st.hdr_len hdr) st) _
      (append_bytes-IsValid (take st.hdr_len hdr) st (all_of-take st.hdr_len) v)
      (λ s w. record { buf_le = w.buf_le; hdr_le = omega arith; clean = w.clean })

module _ (size : ℕ) where
  or_reset-IsValid :
      (r : Result Core) (k : Core → Step)
      → OnOk CoreIsValid r
      → ((st : Core) → CoreIsValid st → StepIsValid size (k st))
      → StepIsValid size (or_reset r k)
  or_reset-IsValid (ok st) k h f = f st h
  or_reset-IsValid (fail e) k h f = tt

  -- The third byte of a header may just have been counted.
  emit_text-IsValid :
      (keep : Bool) (st : Core)
      → length st.buf ≤ 511
      → all_of is_line_byte st.buf ≡ true
      → StepIsValid size (emit_text size keep st)
  emit_text-IsValid keep st h c =
      if_intro (StepIsValid size) (not st.seen_header || length st.buf == 0)
        (λ _. record { buf_le = h; hdr_le = omega arith; clean = c })
        (λ some.
          if_intro (StepIsValid size) (leb size (length st.buf)) (λ _. (core_init-IsValid, tt))
            (λ fits. (
              record { buf_le = omega arith; hdr_le = omega arith; clean = refl },
              record { ne = ground arith; lt = ground arith; clean = c },
            )))

  emit_tnc2-IsValid :
      (flush keep : Bool) (st : Core)
      → CoreIsValid st
      → StepIsValid size (emit_tnc2 size flush keep st)
  unfolding emit_tnc2
  emit_tnc2-IsValid flush keep st v =
      if_intro (StepIsValid size) (size == 0) (λ _. (v, tt))
        (λ _.
          if_intro (StepIsValid size) (flush && st.seen_header && ltb 0 st.hdr_len)
            (λ _.
              or_reset-IsValid (append_hdr_prefix st) (emit_text size keep)
                (append_hdr_prefix-IsValid st v) (λ s w. emit_text-IsValid keep s w.buf_le w.clean))
            (λ _. emit_text-IsValid keep st v.buf_le v.clean))

  scan_header-IsValid : (st : Core) (b : ℕ) → CoreIsValid st → CoreIsValid (scan_header st b)
  scan_header-IsValid st b v = ground arith

  scan_text-IsValid : (b : ℕ) (st : Core) → CoreIsValid st → StepIsValid size (scan_text size b st)
  scan_text-IsValid b st v =
      if_intro (StepIsValid size) (b == b'\r' || b == b'\n')
        (λ _. emit_tnc2-IsValid true false st v)
        (λ e.
          if_intro (StepIsValid size) (b == hdr0)
            (λ _. record { buf_le = v.buf_le; hdr_le = omega arith; clean = v.clean })
            (λ _.
              or_reset-IsValid (append_payload st b) next
                (append_payload-IsValid st b (ground arith) v) (λ s w. w)))

  -- At a whole header the text before it is returned, with no flush.
  emit_tnc2-at_header :
      (st : Core)
      → 0 < size
      → CoreIsValid st
      → StepIsValid size (emit_tnc2 size false true (record st { hdr_len = st.hdr_len + 1 }))
  unfolding emit_tnc2
  emit_tnc2-at_header st h v =
      if_intro (StepIsValid size) (size == 0) (λ e. absurd (ground arith))
        (λ _. emit_text-IsValid true (record st { hdr_len = st.hdr_len + 1 }) v.buf_le v.clean)

  scan_byte-IsValid :
      (st : Core) (b : ℕ) → 0 < size → CoreIsValid st → StepIsValid size (scan_byte size st b)
  unfolding scan_byte
  scan_byte-IsValid st b h v =
      if_intro (StepIsValid size) (not st.seen_header) (λ _. scan_header-IsValid st b v)
        (λ _.
          if_intro (StepIsValid size) (ltb 0 st.hdr_len)
            (λ _.
              if_intro (StepIsValid size) (b == hdr_byte st.hdr_len)
                (λ _.
                  if_intro (StepIsValid size) (st.hdr_len + 1 == 3)
                    (λ _. emit_tnc2-at_header st h v)
                    (λ n. record {
                      buf_le = v.buf_le;
                      hdr_le = ground (arith, v.hdr_le);
                      clean = v.clean;
                    }))
                (λ _.
                  or_reset-IsValid (append_hdr_prefix st) (scan_text size b)
                    (append_hdr_prefix-IsValid st v) (scan_text-IsValid b)))
            (λ _. scan_text-IsValid b st v))

  scan-IsValid :
      (last : Core → RxState × Outcome)
      → ((st : Core) → CoreIsValid st → CallIsValid size (last st))
      → (bs : Bytes) (st : Core) → 0 < size
      → length bs ≤ rx_pending
      → CoreIsValid st
      → CallIsValid size (scan size last st bs)
  unfolding scan
  scan-IsValid last f [] st h l v = f st v
  scan-IsValid last f (b ∷ bs) st h l v =
      elim (scan_byte size st b)
          as (λ s.
            StepIsValid size s
            → CallIsValid size (elim s [
              | next st' ↦ scan size last st' bs
              | stop st' o ↦ (record { core = st'; pending = bs }, o)
              | reset e ↦ (rx_state_init, failed e)
            ])) [
              | next st' ↦ λ w. scan-IsValid last f bs st' h (omega arith) w
              | stop st' o ↦ λ w. (record { core_valid = w.0; pending_le = omega arith }, w.1)
              | reset e ↦
                  λ w. (record { core_valid = core_init-IsValid; pending_le = omega arith }, tt)
            ]
        (scan_byte-IsValid st b h v)

  settle-IsValid : (s : Step) → StepIsValid size s → CallIsValid size (settle s)
  settle-IsValid (next st) w = (record { core_valid = w; pending_le = omega arith }, tt)
  settle-IsValid (stop st o) w = (record { core_valid = w.0; pending_le = omega arith }, w.1)
  settle-IsValid (reset e) w =
      (record { core_valid = core_init-IsValid; pending_le = omega arith }, tt)

  at_end-IsValid :
      (flush : Bool) (st : Core) → CoreIsValid st → CallIsValid size (at_end size flush st)
  at_end-IsValid true st v =
      settle-IsValid (emit_tnc2 size true false st) (emit_tnc2-IsValid true false st v)
  at_end-IsValid false st v = (record { core_valid = v; pending_le = omega arith }, tt)

-- From a valid state and for a buffer of at least one byte, whatever bytes are received and however they are cut into calls: the scanner keeps at most 511
-- text bytes, 1024 pending bytes and 2 bytes of a header, and a line that it returns is not empty,
-- fits the caller's buffer with its NUL, and holds no CR or LF.
pub extract_tnc2-IsValid :
    (st : RxState) (bs : Bytes) (size : ℕ)
    → 0 < size
    → IsValid st
    → IsValid (extract_tnc2 st bs size).0 × OutcomeIsValid size (extract_tnc2 st bs size).1
unfolding extract_tnc2
extract_tnc2-IsValid st bs size h v =
    if_intro (CallIsValid size) (ltb (rx_pending - length st.pending) (length bs))
      (λ _. (record { core_valid = core_init-IsValid; pending_le = omega arith }, tt))
      (λ fits.
        scan-IsValid size _ (at_end-IsValid size _) (st.pending ++ bs) st.core h
          (ground (arith, length-append st.pending bs, v.pending_le)) v.core_valid)

-- ===== src/Loraham/Scanner/Packets.antt =====
-- loraham_sock.c: the scanner finds the text of a packet.
use loraham_kiss_tnc.Base.{
  ℕ, zero, suc, ◌+◌, ◌-◌, ◌≤◌, ◌<◌, ◌≡◌, refl, ◌∙◌, sym, ap, Bool, true, false, not, ◌&&◌, ◌||◌, [],
  ◌∷◌, ◌++◌, append_assoc, append-nil, ltb, ◌==◌, if◌then◌else◌, Bytes, length, length-append,
  all_of, Bool-cases, eqb→eq, subst, inl, inr, arith,
}
use loraham_kiss_tnc.Loraham.Packet.{hdr0, hdr1, hdr2, hdr}
use loraham_kiss_tnc.Loraham.Scanner.{
  Core, RxState, Outcome, nothing, line, next, stop, core_init, rx_state_init, append_hdr_prefix,
  emit_tnc2, scan_byte, scan, at_end, extract_tnc2,
}

-- Neither CR nor LF.
abbrev pub is_line_byte : ℕ → Bool
is_line_byte c = not (c == b'\r' || c == b'\n')

abbrev starts_header : Bytes → Bool
starts_header (a ∷ b ∷ c ∷ cs) = a == hdr0 && b == hdr1 && c == hdr2
starts_header _ = false

-- The three header bytes stand nowhere in the text.
abbrev pub free_of_header : Bytes → Bool
free_of_header [] = true
free_of_header (c ∷ cs) = not (starts_header (c ∷ cs)) && free_of_header cs

abbrev reading : Bytes → ℕ → Core
reading buf k = record { buf = buf; seen_header = true; hdr_len = k }

-- The text with `k` bytes of a header behind it.
flushed : Bytes → ℕ → Bytes
flushed buf zero = buf
flushed buf (suc zero) = buf ++ hdr0 ∷ []
flushed buf (suc (suc k)) = buf ++ hdr0 ∷ hdr1 ∷ []

abbrev prefix : ℕ → Bytes → Bytes
prefix zero r = r
prefix (suc zero) r = hdr0 ∷ r
prefix (suc (suc k)) r = hdr0 ∷ hdr1 ∷ r

and-right : (a b : Bool) → (a && b) ≡ true → b ≡ true
and-right a b h = ground arith

free-tail : (c : ℕ) (r : Bytes) → free_of_header (c ∷ r) ≡ true → free_of_header r ≡ true
free-tail c r = and-right (not (starts_header (c ∷ r))) (free_of_header r)

free-subst :
    (b x : ℕ) (r : Bytes)
    → (b == x) ≡ true
    → free_of_header (b ∷ r) ≡ true
    → free_of_header (x ∷ r) ≡ true
free-subst b x r e = subst (λ y. free_of_header (y ∷ r) ≡ true) (eqb→eq b x e)

free-no_third :
    (b : ℕ) (r : Bytes) → free_of_header (hdr0 ∷ hdr1 ∷ b ∷ r) ≡ true → (b == hdr2) ≡ false
free-no_third b r h = ground arith

length-two : (buf : Bytes) → length ((buf ++ hdr0 ∷ []) ++ hdr1 ∷ []) ≡ length buf + 2
length-two buf =
    omega (arith, length-append buf (hdr0 ∷ []), length-append (buf ++ hdr0 ∷ []) (hdr1 ∷ []))

module _ (size : ℕ) where
  scan_byte-zero :
      (buf : Bytes) (b : ℕ)
      → is_line_byte b ≡ true
      → length buf < 511
      → scan_byte size (reading buf 0) b
        ≡ (if b == hdr0 then next (reading buf 1) else next (reading (buf ++ b ∷ []) 0))
  unfolding scan_byte
  scan_byte-zero buf b e h = ground arith

  scan_byte-one :
      (buf : Bytes) (b : ℕ)
      → is_line_byte b ≡ true
      → length buf < 510
      → scan_byte size (reading buf 1) b ≡ (
          if b == hdr1
          then next (reading buf 2)
          else if b == hdr0
          then next (reading (buf ++ hdr0 ∷ []) 1)
          else next (reading ((buf ++ hdr0 ∷ []) ++ b ∷ []) 0))
  unfolding scan_byte append_hdr_prefix
  scan_byte-one buf b e h = ground (arith, length-append buf (hdr0 ∷ []))

  scan_byte-two :
      (buf : Bytes) (b : ℕ)
      → is_line_byte b ≡ true
      → (b == hdr2) ≡ false
      → length buf < 509
      → scan_byte size (reading buf 2) b ≡ (
          if b == hdr0
          then next (reading ((buf ++ hdr0 ∷ []) ++ hdr1 ∷ []) 1)
          else next (reading (((buf ++ hdr0 ∷ []) ++ hdr1 ∷ []) ++ b ∷ []) 0))
  unfolding scan_byte append_hdr_prefix
  scan_byte-two buf b e n h =
      ground (arith, length-append buf (hdr0 ∷ []), length-append (buf ++ hdr0 ∷ []) (hdr1 ∷ []))

  module _ (last : Core → RxState × Outcome) where
    -- The scanner uses up `r` and stands behind the text `t`.
    record Reads (st : Core) (r t : Bytes) : Type 0 where
      buf : Bytes
      k : ℕ
      runs : scan size last st r ≡ last (reading buf k)
      k_le : k ≤ 2
      text : flushed buf k ≡ t

    Reads-cons :
        {st st' : Core} (b : ℕ) {r t : Bytes}
        → scan_byte size st b ≡ next st'
        → Reads st' r t
        → Reads st (b ∷ r) t
    unfolding scan
    Reads-cons {st} {st'} b {r} {t} e h = record {
      buf = h.buf;
      k = h.k;
      runs = step ∙ h.runs;
      k_le = h.k_le;
      text = h.text;
    }
      where
        step : scan size last st (b ∷ r) ≡ scan size last st' r
        step = rw (e, scan)

    Reads-text : {st : Core} {r t t' : Bytes} → Reads st r t → t ≡ t' → Reads st r t'
    Reads-text h e = record {
      buf = h.buf;
      k = h.k;
      runs = h.runs;
      k_le = h.k_le;
      text = h.text ∙ e;
    }

    -- A byte that goes on with no header, behind the text `done`.
    turn :
        (b : ℕ) (r done : Bytes) {st : Core}
        → scan_byte size st b
          ≡ (if b == hdr0 then next (reading done 1) else next (reading (done ++ b ∷ []) 0))
        → ((b == hdr0) ≡ true → Reads (reading done 1) r ((done ++ hdr0 ∷ []) ++ r))
        → Reads (reading (done ++ b ∷ []) 0) r ((done ++ b ∷ []) ++ r)
        → Reads st (b ∷ r) (done ++ (b ∷ r))
    turn b r done e yes_header no_header = elim (Bool-cases (b == hdr0)) [
      | inl y ↦
          Reads-text (Reads-cons b (e ∙ rw y) (yes_header y))
            (append_assoc done (hdr0 ∷ []) r ∙ ap (λ x. done ++ (x ∷ r)) (sym (eqb→eq b hdr0 y)))
      | inr n ↦ Reads-text (Reads-cons b (e ∙ rw n) no_header) (append_assoc done (b ∷ []) r)
    ]

    scan-Reads :
        (r buf : Bytes) (k : ℕ)
        → k ≤ 2
        → all_of is_line_byte r ≡ true
        → free_of_header (prefix k r) ≡ true
        → length buf + k + length r ≤ 511
        → Reads (reading buf k) r (flushed buf k ++ r)
    unfolding flushed
    scan-Reads [] buf k h e f l = record {
      buf = buf;
      k = k;
      runs = unfold scan in refl;
      k_le = h;
      text = sym (append-nil (flushed buf k));
    }
    scan-Reads (b ∷ r) buf zero h e f l =
        turn b r buf (scan_byte-zero buf b (ground arith) (omega arith))
          (λ y.
            scan-Reads r buf 1 (omega arith) (ground arith) (free-subst b hdr0 r y f) (omega arith))
          (scan-Reads r (buf ++ b ∷ []) 0 (omega arith) (ground arith) (free-tail b r f)
            (omega (arith, length-append buf (b ∷ []))))
    scan-Reads (b ∷ r) buf (suc zero) h e f l =
        let buf1 = buf ++ hdr0 ∷ [] in
        elim (Bool-cases (b == hdr1)) [
          | inl y ↦
              Reads-text
                (Reads-cons b (scan_byte-one buf b (ground arith) (omega arith) ∙ rw y) (
                  scan-Reads r buf 2 (omega arith) (ground arith)
                    (subst (λ x. free_of_header (hdr0 ∷ x ∷ r) ≡ true) (eqb→eq b hdr1 y) f)
                    (omega arith)))
                (rw (append_assoc, append_assoc, eqb→eq b hdr1 y))
          | inr n ↦
              turn b r buf1 (scan_byte-one buf b (ground arith) (omega arith) ∙ rw n)
                (λ y.
                  scan-Reads r buf1 1 (omega arith) (ground arith)
                    (free-subst b hdr0 r y (free-tail hdr0 (b ∷ r) f))
                    (omega (arith, length-append buf (hdr0 ∷ []))))
                (scan-Reads r (buf1 ++ b ∷ []) 0 (omega arith) (ground arith)
                  (free-tail b r (free-tail hdr0 (b ∷ r) f))
                  (omega (arith, length-append buf (hdr0 ∷ []), length-append buf1 (b ∷ []))))
        ]
    scan-Reads (b ∷ r) buf (suc (suc zero)) h e f l =
        let buf2 = (buf ++ hdr0 ∷ []) ++ hdr1 ∷ [] in
        let room = length-two buf in
        Reads-text
          (turn b r buf2 (scan_byte-two buf b (ground arith) (free-no_third b r f) (omega arith))
            (λ y.
              scan-Reads r buf2 1 (omega arith) (ground arith)
                (free-subst b hdr0 r y (free-tail hdr1 (b ∷ r) (free-tail hdr0 (hdr1 ∷ b ∷ r) f)))
                (omega (arith, room)))
            (scan-Reads r (buf2 ++ b ∷ []) 0 (omega arith) (ground arith)
              (free-tail b r (free-tail hdr1 (b ∷ r) (free-tail hdr0 (hdr1 ∷ b ∷ r) f)))
              (omega (arith, room, length-append buf2 (b ∷ [])))))
          (rw (append_assoc, append_assoc, append_assoc))
    scan-Reads (b ∷ r) buf (suc (suc (suc k))) h e f l = absurd (omega arith)

  emit_tnc2-flushed :
      (buf : Bytes) (k : ℕ)
      → k ≤ 2
      → 0 < length (flushed buf k)
      → length (flushed buf k) < size
      → length (flushed buf k) ≤ 511
      → emit_tnc2 size true false (reading buf k) ≡ stop core_init (line (flushed buf k))
  unfolding emit_tnc2 append_hdr_prefix flushed
  emit_tnc2-flushed buf zero h p q r = ground arith
  emit_tnc2-flushed buf (suc zero) h p q r = ground (arith, length-append buf (hdr0 ∷ []))
  emit_tnc2-flushed buf (suc (suc zero)) h p q r = ground (
    arith,
    length-append buf (hdr0 ∷ []),
    length-two buf,
    length-append buf (hdr0 ∷ hdr1 ∷ []),
    append_assoc buf (hdr0 ∷ []) (hdr1 ∷ []),
  )
  emit_tnc2-flushed buf (suc (suc (suc k))) h p q r = absurd (omega arith)

-- Bytes waiting for a call that flushes.
abbrev waiting : Bytes → ℕ → RxState
waiting buf k = record { core = reading buf k; pending = [] }

extract_tnc2-hdr :
    (size : ℕ) (text : Bytes)
    → 3 + length text ≤ 1024
    → extract_tnc2 rx_state_init (hdr ++ text) size
      ≡ scan size (at_end size false) (reading [] 0) text
unfolding extract_tnc2
extract_tnc2-hdr size text h =
    let fits : ltb (1024 - 0) (length (hdr ++ text)) ≡ false = ground arith in
    let ne : (length (hdr ++ text) == 0 && length rx_state_init.pending == 0) ≡ false =
      ground arith in
    rw (fits, extract_tnc2) (ap (λ b. scan size (at_end size b) (reading [] 0) text) ne)

extract_tnc2-flush :
    (size : ℕ) (buf : Bytes) (k : ℕ)
    → emit_tnc2 size true false (reading buf k) ≡ stop core_init (line (flushed buf k))
    → extract_tnc2 (waiting buf k) [] size ≡ (rx_state_init, line (flushed buf k))
unfolding extract_tnc2
extract_tnc2-flush size buf k e = rw e

-- A packet whose text is not empty, fits the buffers, holds no CR, LF or packet header, is found by
-- a scanner in its initial state: the call with the packet's bytes returns nothing yet and leaves none pending, and the
-- idle call behind it returns exactly the text and leaves the scanner in its initial state.
pub extract_tnc2_packet :
    (text : Bytes) (size : ℕ)
    → 0 < length text
    → length text ≤ 511
    → length text < size
    → all_of is_line_byte text ≡ true
    → free_of_header text ≡ true
    → (st : RxState) × (st.pending ≡ [])
      × (extract_tnc2 rx_state_init (hdr ++ text) size ≡ (st, nothing))
      × (extract_tnc2 st [] size ≡ (rx_state_init, line text))
unfolding flushed
extract_tnc2_packet text size p q l e f =
    let r = scan-Reads size (at_end size false) text [] 0 (omega arith) e f (omega arith) in
    let len = ap length r.text in
    (
      waiting r.buf r.k,
      refl,
      extract_tnc2-hdr size text (omega arith) ∙ r.runs,
      extract_tnc2-flush size r.buf r.k
            (emit_tnc2-flushed size r.buf r.k r.k_le (omega arith) (omega arith) (omega arith))
          ∙ ap (λ t. (rx_state_init, line t)) r.text,
    )

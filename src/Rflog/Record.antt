-- ===== src/Rflog/Record.antt =====
-- rflog.c: every line is one record of the log, whatever the packet holds.
use loraham_kiss_tnc.Base.{
  ℕ, zero, suc, ◌+◌, ◌-◌, ◌/◌, ◌%◌, ◌≤◌, ◌<◌, ◌≡◌, refl, sym, subst, [], ◌∷◌, ◌++◌, append_assoc,
  ltb, leb, if_intro, if◌then◌else◌, Bool-cases, ltb→lt, Bytes, length, length-append, take, codes,
  All, All-append, arith, inl, inr,
}
use loraham_kiss_tnc.Rflog.{
  Line, tnc2_summary, put, put_hex, put_ascii, summary_max, put_summary, close_record, append_tail,
  digits, size_text, header, rx_header, tx_header, format_rx, format_tx,
}
use loraham_kiss_tnc.Rflog.Holds.{
  Printable, IsByte, take-All, take_short, length-take_long, Holds, length-put, put-Holds,
  put_hex-Holds, put_ascii-Holds, tnc2_summary-Printable, put_summary-Holds,
}

-- A record: printable text and the one LF at its end, within the buffer with its NUL.
pub record IsRecord (size : ℕ) (out : Bytes) : Type 0 where
  pub body : Bytes
  pub ended : out ≡ body ++ b'\n' ∷ []
  pub printable : All Printable body
  pub within : length out < size

module _ (size : ℕ) (some_room : 8 ≤ size) where
  -- A last text that does not fit leaves only its quote.
  cut_end : (n : ℕ) → n ≤ 1 → All Printable (take n (codes "\"\n"))
  cut_end zero h = tt
  cut_end (suc zero) h = ground arith
  cut_end (suc (suc n)) h = absurd (omega (arith, h))

  put_end-Printable :
      (l : Line) → Holds size l → size ≤ l.pos + 2 → All Printable (put size l (codes "\"\n")).text
  unfolding put
  put_end-Printable l h over =
      if_intro (All Printable) (ltb l.pos size)
        (λ _.
          All-append Printable l.text (take (size - l.pos - 1) (codes "\"\n")) h.printable
            (cut_end (size - l.pos - 1) (omega (arith, over))))
        (λ _. h.printable)

  put_end_short :
      (l : Line)
      → l.pos + 2 < size
      → put size l (codes "\"\n") ≡ record { text = l.text ++ codes "\"\n"; pos = l.pos + 2 }
  unfolding put
  put_end_short l h =
      let whole = take_short (size - l.pos - 1) (codes "\"\n") (omega (arith, h)) in
      ground (arith, whole)

  put-pos : (l : Line) (t : Bytes) → (put size l t).pos ≡ l.pos + length t
  unfolding put
  put-pos l t = refl

  fitting-IsRecord :
      (l : Line)
      → Holds size l
      → l.pos + 2 < size
      → IsRecord size
          (close_record size (record { text = l.text ++ codes "\"\n"; pos = l.pos + 2 }))
  fitting-IsRecord l h fits =
      if_intro (IsRecord size) (leb size (l.pos + 2)) (λ z. absurd (ground arith))
        (λ _. record {
          body = l.text ++ b'"' ∷ [];
          ended = sym (append_assoc l.text (b'"' ∷ []) (b'\n' ∷ []));
          printable = All-append Printable l.text (b'"' ∷ []) h.printable (ground arith);
          within =
              omega
                (arith, length-append l.text (codes "\"\n"), h.inside (omega (arith, fits)), fits);
        })

  cut-IsRecord :
      (p : Line)
      → size ≤ p.pos
      → length p.text ≡ size - 1
      → All Printable p.text
      → IsRecord size (close_record size p)
  cut-IsRecord p over filled printable =
      if_intro (IsRecord size) (leb size p.pos)
        (λ _. record {
          body = take (size - 2) p.text;
          ended = refl;
          printable = take-All (size - 2) p.text printable;
          within = omega (
            arith,
            length-append (take (size - 2) p.text) (b'\n' ∷ []),
            length-take_long (size - 2) p.text (omega (arith, filled)),
            some_room,
          );
        })
        (λ z. absurd (ground arith))

  close_record-IsRecord :
      (l : Line) → Holds size l → IsRecord size (close_record size (put size l (codes "\"\n")))
  close_record-IsRecord l h =
      let p = put size l (codes "\"\n") in
      elim (Bool-cases (ltb (l.pos + 2) size)) [
        | inl fits ↦
            subst (λ x. IsRecord size (close_record size x))
              (sym (put_end_short l (ltb→lt _ _ fits))) (fitting-IsRecord l h (ltb→lt _ _ fits))
        | inr over ↦
            let past : size ≤ l.pos + 2 = ground arith in
            cut-IsRecord p (omega (arith, past, put-pos l (codes "\"\n")))
              ((length-put size some_room l (codes "\"\n") h).1 past) (put_end-Printable l h past)
      ]

  append_tail-IsRecord :
      (l : Line) (packet : Bytes)
      → Holds size l
      → All IsByte packet
      → IsRecord size (append_tail size l packet)
  unfolding append_tail
  append_tail-IsRecord l packet h bytes =
      let room = some_room in
      let l1 = put_summary size l (tnc2_summary summary_max packet) in
      let h1 =
        put_summary-Holds size room l (tnc2_summary summary_max packet) h
          (tnc2_summary-Printable size room packet) in
      let l2 = put size l1 (codes " hex=") in
      let h2 = put-Holds size room l1 (codes " hex=") h1 (ground arith) in
      let l3 = put_hex size l2 packet in
      let h3 = put_hex-Holds size room packet l2 bytes h2 in
      let l4 = put size l3 (codes " ascii=\"") in
      let h4 = put-Holds size room l3 (codes " ascii=\"") h3 (ground arith) in
      close_record-IsRecord (put_ascii size l4 packet) (put_ascii-Holds size room packet l4 h4)

  header-Holds : (t : Bytes) → All Printable t → Holds size (header size t)
  header-Holds t h = record {
    inside = λ _. ground (arith, take_short (size - 1) t, length-take_long (size - 1) t);
    full = λ z. absurd (ground arith);
    printable = take-All (size - 1) t h;
  }

digits-Printable : (k n : ℕ) (acc : Bytes) → All Printable acc → All Printable (digits k n acc)
digits-Printable zero n acc h = h
digits-Printable (suc k) n acc h =
    if_intro (All Printable) (ltb n 10) (λ small. (ground arith, h))
      (λ _. digits-Printable k (n / 10) ((48 + n % 10) ∷ acc) (ground arith, h))

size_text-Printable : (n : ℕ) → All Printable (size_text n)
size_text-Printable n = digits-Printable 20 n [] tt

-- Printable texts joined.
joined : (s t : Bytes) → All Printable s → All Printable t → All Printable (s ++ t)
joined = All-append Printable

rx_header-Printable :
    (utc rssi snr packet : Bytes)
    → All Printable utc
    → All Printable rssi
    → All Printable snr
    → All Printable (rx_header utc rssi snr packet)
rx_header-Printable utc rssi snr packet hu hr hs =
    let len = size_text (length packet) in
    let t1 = utc ++ codes " RX rssi=" in
    let p1 = joined utc (codes " RX rssi=") hu (ground arith) in
    let p2 = joined t1 rssi p1 hr in
    let p3 = joined (t1 ++ rssi) (codes " snr=") p2 (ground arith) in
    let t4 = t1 ++ rssi ++ codes " snr=" ++ snr in
    let p4 = joined (t1 ++ rssi ++ codes " snr=") snr p3 hs in
    let p5 = joined t4 (codes " len=") p4 (ground arith) in
    joined (t4 ++ codes " len=") len p5 (size_text-Printable (length packet))

tx_header-Printable :
    (utc outcome packet : Bytes)
    → All Printable utc
    → All Printable outcome
    → All Printable (tx_header utc outcome packet)
tx_header-Printable utc outcome packet hu ho =
    let len = size_text (length packet) in
    let t1 = utc ++ codes " TX rssi=- snr=- len=" in
    let p1 = joined utc (codes " TX rssi=- snr=- len=") hu (ground arith) in
    let p2 = joined t1 len p1 (size_text-Printable (length packet)) in
    let p3 = joined (t1 ++ len) (codes " outcome=") p2 (ground arith) in
    joined (t1 ++ len ++ codes " outcome=") outcome p3 ho

-- Into a buffer of at least 8 bytes, with printable texts for the time, the RSSI and SNR, and the outcome,
-- a line of the log for a packet of whatever bytes, received or sent, is one record: printable text with one
-- LF, at its end, within the buffer with its NUL, even where the line had to be cut.
pub format-IsRecord :
    (size : ℕ) (utc rssi snr outcome packet : Bytes)
    → 8 ≤ size
    → All Printable utc
    → All Printable rssi
    → All Printable snr
    → All Printable outcome
    → All IsByte packet
    → IsRecord size (format_rx size utc rssi snr packet)
      × IsRecord size (format_tx size utc outcome packet)
unfolding format_rx format_tx
format-IsRecord size utc rssi snr outcome packet room hu hr hs ho bytes =
    let record_of : (t : Bytes)
        → All Printable t
        → IsRecord size (if ltb size 8 then [] else append_tail size (header size t) packet) =
      λ t h.
        if_intro (IsRecord size) (ltb size 8) (λ z. absurd (ground arith))
          (λ _.
            append_tail-IsRecord size room (header size t) packet (header-Holds size room t h)
              bytes) in
    (
      record_of (rx_header utc rssi snr packet) (rx_header-Printable utc rssi snr packet hu hr hs),
      record_of (tx_header utc outcome packet) (tx_header-Printable utc outcome packet hu ho),
    )

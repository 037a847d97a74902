-- ===== src/Bridge/Conf/Lines.antt =====
-- bridge_conf.c: the CONF stream, line by line.
use loraham_kiss_tnc.Base.{
  ℕ, suc, ◌+◌, ◌<◌, ◌≡◌, ◌≢◌, refl, sym, ap, ◌∙◌, true, false, List, [], ◌∷◌, ◌++◌, append_assoc,
  append-nil, All, leb, ◌==◌, if◌then◌else◌, Bytes, length, length-append, cut, Lacks, Bool-cases,
  inl, inr, arith,
}
use loraham_kiss_tnc.Bridge.Conf.{conf_line_max, Flags, ConfState, handle_line, feed_byte, feed}

-- A line's characters without the CRs.
abbrev pub without_cr : Bytes → Bytes
without_cr [] = []
without_cr (c ∷ s) = if c == b'\r' then without_cr s else c ∷ without_cr s

-- At the start of a line.
abbrev at_start : Flags → ConfState
at_start f = record { flags = f; line = []; discard = false }

abbrev within : Flags → Bytes → ConfState
within f line = record { flags = f; line = line; discard = false }

abbrev skipping : Flags → ConfState
skipping f = record { flags = f; line = []; discard = true }

-- What a whole line does.
abbrev pub take_line : Flags → Bytes → Flags
take_line f text =
    if leb conf_line_max (length (without_cr text))
    then f
    else handle_line f (cut 0 (without_cr text)).0

feed-skipping :
    (f : Flags) (text rest : Bytes)
    → Lacks b'\n' text
    → feed (skipping f) (text ++ b'\n' ∷ rest) ≡ feed (at_start f) rest
unfolding feed feed_byte
feed-skipping f [] rest h = refl
feed-skipping f (c ∷ text) rest h = ground (arith, feed-skipping f text rest h.1)

feed_byte-text :
    (f : Flags) (line : Bytes) (c : ℕ)
    → c ≢ b'\n'
    → feed_byte (within f line) c ≡ (
        if c == b'\r'
        then within f line
        else if leb conf_line_max (length line + 1)
        then skipping f
        else within f (line ++ c ∷ []))
unfolding feed_byte
feed_byte-text f line c h = ground arith

feed-within :
    (f : Flags) (text line rest : Bytes)
    → Lacks b'\n' text
    → length line < conf_line_max
    → feed (within f line) (text ++ b'\n' ∷ rest)
      ≡ feed
          (at_start (
            if leb conf_line_max (length line + length (without_cr text))
            then f
            else handle_line f (cut 0 (line ++ without_cr text)).0))
          rest
unfolding feed
feed-within f [] line rest h k =
    let short : leb conf_line_max (length line + 0) ≡ false = ground arith in
    unfold feed_byte in rw (short, append-nil)
feed-within f (c ∷ text) line rest h k =
    ap (λ st. feed st (text ++ b'\n' ∷ rest)) (feed_byte-text f line c h.0)
    ∙ elim (Bool-cases (c == b'\r')) [
      | inl cr ↦ rw cr (feed-within f text line rest h.1 k)
      | inr other ↦ elim (Bool-cases (leb conf_line_max (length line + 1))) [
        | inl full ↦
            let long : leb conf_line_max (length line + suc (length (without_cr text))) ≡ true =
              ground arith in
            rw (other, full, long) (feed-skipping f text rest h.1)
        | inr room ↦
            let more = length-append line (c ∷ []) in
            let same : length (line ++ c ∷ []) + length (without_cr text)
                ≡ length line + suc (length (without_cr text)) =
              omega (arith, more) in
            rw (other, room)
              (feed-within f text (line ++ c ∷ []) rest h.1 (ground (arith, more))
                ∙ rw (same, append_assoc) refl)
      ]
    ]

-- From the start of a line, a line of the daemon, with no LF inside, and its LF, whatever CRs stand in it, has exactly the
-- effect of that line, or none if more than 511 characters are left of it, and leads to the start of the
-- next line.
pub feed_line :
    (f : Flags) (text rest : Bytes)
    → Lacks b'\n' text
    → feed (record { flags = f; line = []; discard = false }) (text ++ b'\n' ∷ rest)
      ≡ feed (record { flags = take_line f text; line = []; discard = false }) rest
feed_line f text rest h =
    let same : 0 + length (without_cr text) ≡ length (without_cr text) = omega arith in
    feed-within f text [] rest h (omega arith) ∙ rw same refl

feed-append : (st : ConfState) (xs ys : Bytes) → feed st (xs ++ ys) ≡ feed (feed st xs) ys
unfolding feed
feed-append st [] ys = refl
feed-append st (c ∷ xs) ys = feed-append (feed_byte st c) xs ys

-- One call for each read from the socket.
abbrev pub feed_reads : ConfState → List Bytes → ConfState
feed_reads st [] = st
feed_reads st (bytes ∷ reads) = feed_reads (feed st bytes) reads

abbrev pub joined : List Bytes → Bytes
joined [] = []
joined (bytes ∷ reads) = bytes ++ joined reads

feed_reads-joined :
    (st : ConfState) (reads : List Bytes) → feed_reads st reads ≡ feed st (joined reads)
feed_reads-joined st [] = unfold feed in refl
feed_reads-joined st (bytes ∷ reads) =
    feed_reads-joined (feed st bytes) reads ∙ sym (feed-append st bytes (joined reads))

-- The daemon's lines as it sends them, and their effect one after the other.
abbrev pub lines_text : List Bytes → Bytes
lines_text [] = []
lines_text (text ∷ lines) = text ++ b'\n' ∷ lines_text lines

abbrev pub take_lines : Flags → List Bytes → Flags
take_lines f [] = f
take_lines f (text ∷ lines) = take_lines (take_line f text) lines

feed-lines_text :
    (f : Flags) (lines : List Bytes)
    → All (Lacks b'\n') lines
    → feed (at_start f) (lines_text lines) ≡ at_start (take_lines f lines)
feed-lines_text f [] h = unfold feed in refl
feed-lines_text f (text ∷ lines) h =
    feed_line f text (lines_text lines) h.0 ∙ feed-lines_text (take_line f text) lines h.1

-- However the daemon's lines, none with an LF inside, are cut into reads, the flags are those that the lines lead to one after
-- the other, and the next line is read from its start.
pub feed_reads-lines_text :
    (f : Flags) (lines reads : List Bytes)
    → All (Lacks b'\n') lines
    → joined reads ≡ lines_text lines
    → feed_reads (record { flags = f; line = []; discard = false }) reads
      ≡ record { flags = take_lines f lines; line = []; discard = false }
feed_reads-lines_text f lines reads h e =
    feed_reads-joined _ reads ∙ ap (feed _) e ∙ feed-lines_text f lines h

-- ===== src/Bridge/Egress/Frames.antt =====
-- bridge_rx.c: a read of the daemon's stream, frame by frame.
use loraham_kiss_tnc.Base.{
  ℕ, ◌/◌, ◌%◌, ◌≤◌, ◌≡◌, refl, ◌∙◌, sym, ap, List, [], ◌∷◌, ◌++◌, append_assoc, All, Option, none,
  some, and_then, Bytes, length, length-append, ok, fail, arith,
}
use loraham_kiss_tnc.Bridge.Egress.{
  Reply, Client, handle_framed_frame, handle_outcome, handle_framed_chunk,
}
use loraham_kiss_tnc.Bridge.Shared.{Stats}
use loraham_kiss_tnc.Loraham.Framed.{
  Frame, Outcome, FramedState, max_payload, pending, complete, state_init, decode_byte,
}
use loraham_kiss_tnc.Loraham.Framed.Stream.{
  frame_bytes, frames_bytes, ShortPayload, reading, decode_byte-last, decode_byte-more,
  start_payload-more,
}

-- The frames handled one after the other, up to the first that fails.
unfoldable pub handle_frames : ℕ → Client → Stats → List Bytes → List Frame → Option Reply
handle_frames fuel client s sent [] = some (record { stats = s; sent = sent; result = ok tt })
handle_frames fuel client s sent (f ∷ fs) =
    and_then (handle_framed_frame fuel client s sent f)
      (λ r. elim r.result [ fail e ↦ some r | ok _ ↦ handle_frames fuel client r.stats r.sent fs ])

-- A call that leaves the decoder at the start of a frame.
abbrev pub in_sync : Option Reply → Option (FramedState × Reply)
in_sync o = and_then o (λ r. some (state_init, r))

module _ (fuel : ℕ) (client : Client) (s : Stats) (sent : List Bytes) where
  -- What follows a frame.
  abbrev go_on : Bytes → Frame → Option (FramedState × Reply)
  go_on rest f = and_then (handle_framed_frame fuel client s sent f) (λ r. elim r.result [
    | fail e ↦ some (state_init, r)
    | ok _ ↦ handle_framed_chunk fuel client r.stats r.sent state_init rest
  ])

  -- What the call does with one byte's outcome.
  abbrev after : Bytes → FramedState × Outcome → Option (FramedState × Reply)
  after bs d = and_then (handle_outcome fuel client s sent d.1) (λ r. elim r.result [
    | fail e ↦ some (d.0, r)
    | ok _ ↦ handle_framed_chunk fuel client r.stats r.sent d.0 bs
  ])

  chunk_after :
      (st : FramedState) (b : ℕ) (bs : Bytes)
      → handle_framed_chunk fuel client s sent st (b ∷ bs) ≡ after bs (decode_byte st b)
  unfolding handle_framed_chunk
  chunk_after st b bs = refl

  chunk_pending :
      (st st' : FramedState) (b : ℕ) (bs : Bytes)
      → decode_byte st b ≡ (st', pending)
      → handle_framed_chunk fuel client s sent st (b ∷ bs)
        ≡ handle_framed_chunk fuel client s sent st' bs
  chunk_pending st st' b bs e = chunk_after st b bs ∙ ap (after bs) e

  chunk_complete :
      (st : FramedState) (f : Frame) (b : ℕ) (bs : Bytes)
      → decode_byte st b ≡ (state_init, complete f)
      → handle_framed_chunk fuel client s sent st (b ∷ bs) ≡ go_on bs f
  chunk_complete st f b bs e = chunk_after st b bs ∙ ap (after bs) e

  chunk_payload :
      (f : Frame) (done : Bytes) (b : ℕ) (bs rest : Bytes)
      → f.payload ≡ done ++ (b ∷ bs)
      → handle_framed_chunk fuel client s sent (reading f done) ((b ∷ bs) ++ rest) ≡ go_on rest f
  chunk_payload f done b [] rest e =
      chunk_complete (reading f done) f b rest (decode_byte-last f done b e)
  chunk_payload f done b (c ∷ bs) rest e =
      chunk_pending (reading f done) (reading f (done ++ b ∷ [])) b ((c ∷ bs) ++ rest)
        (decode_byte-more f done b (omega (arith, ap length e, length-append done (b ∷ c ∷ bs))))
      ∙ chunk_payload f (done ++ b ∷ []) c bs rest (e ∙ sym (append_assoc done (b ∷ []) (c ∷ bs)))

  -- The state behind two header bytes.
  abbrev two_bytes : ℕ → ℕ → FramedState
  two_bytes kind lo = record { header = kind ∷ lo ∷ []; kind = 0; payload_len = 0; payload = [] }

  chunk_header :
      (kind lo : ℕ) (bs : Bytes)
      → handle_framed_chunk fuel client s sent state_init (kind ∷ lo ∷ bs)
        ≡ handle_framed_chunk fuel client s sent (two_bytes kind lo) bs
  unfolding decode_byte
  chunk_header kind lo bs =
      chunk_pending state_init (record state_init { header = kind ∷ [] }) kind (lo ∷ bs) refl
      ∙ chunk_pending (record state_init { header = kind ∷ [] }) (two_bytes kind lo) lo bs refl

  chunk_frame :
      (kind : ℕ) (payload rest : Bytes)
      → length payload ≤ max_payload
      → let f : Frame = record { kind = kind; payload = payload } in
        handle_framed_chunk fuel client s sent state_init (frame_bytes f ++ rest) ≡ go_on rest f
  unfolding decode_byte
  chunk_frame kind [] rest h =
      chunk_header kind 0 (0 ∷ rest)
      ∙ chunk_complete (two_bytes kind 0) (record { kind = kind; payload = [] }) 0 rest refl
  chunk_frame kind (b ∷ bs) rest h =
      let f : Frame = record { kind = kind; payload = b ∷ bs } in
      chunk_header kind (length (b ∷ bs) % 256) _
      ∙ chunk_pending (two_bytes kind (length (b ∷ bs) % 256)) (reading f [])
          (length (b ∷ bs) / 256 % 256) ((b ∷ bs) ++ rest)
          (start_payload-more (kind ∷ (length (b ∷ bs) % 256) ∷ (length (b ∷ bs) / 256 % 256) ∷ [])
            kind (length (b ∷ bs)) (omega arith) h)
      ∙ chunk_payload f [] b bs rest refl

module _ (fuel : ℕ) (client : Client) (fs : List Frame) (rest : Bytes) where
  -- The frames behind a frame that was handled.
  frames_behind :
      ((s : Stats) (sent : List Bytes)
        → handle_framed_chunk fuel client s sent state_init rest
          ≡ in_sync (handle_frames fuel client s sent fs))
      → (o : Option Reply)
      → and_then o (λ r. elim r.result as (λ _. Option (FramedState × Reply)) [
        | fail e ↦ some (state_init, r)
        | ok _ ↦ handle_framed_chunk fuel client r.stats r.sent state_init rest
      ])
        ≡ in_sync (
            and_then o (λ r. elim r.result as (λ _. Option Reply) [
              | fail e ↦ some r
              | ok _ ↦ handle_frames fuel client r.stats r.sent fs
            ]))
  frames_behind ih none = refl
  frames_behind ih (some r) =
      elim r.result
        as (λ k.
          elim k as (λ _. Option (FramedState × Reply)) [
            | fail e ↦ some (state_init, r)
            | ok _ ↦ handle_framed_chunk fuel client r.stats r.sent state_init rest
          ]
          ≡ in_sync (elim k as (λ _. Option Reply) [
            | fail e ↦ some r
            | ok _ ↦ handle_frames fuel client r.stats r.sent fs
          ])) [ ok u ↦ ih r.stats r.sent | fail e ↦ refl ]

-- A read that holds whole frames, each with at most 1024 payload bytes, is handled as those frames
-- one after the other, up to the first that fails. A frame that fails ends the call with the decoder at
-- the start of a frame, so in step with the stream, and the frames behind it are not handled.
pub handle_framed_chunk-frames_bytes :
    (fuel : ℕ) (client : Client) (fs : List Frame) (s : Stats) (sent : List Bytes)
    → All ShortPayload fs
    → handle_framed_chunk fuel client s sent state_init (frames_bytes fs)
      ≡ in_sync (handle_frames fuel client s sent fs)
unfolding handle_frames
handle_framed_chunk-frames_bytes fuel client [] s sent h = unfold handle_framed_chunk in refl
handle_framed_chunk-frames_bytes fuel client (f ∷ fs) s sent h =
    chunk_frame fuel client s sent f.kind f.payload (frames_bytes fs) h.0
    ∙ frames_behind fuel client fs (frames_bytes fs)
        (λ s2 sent2. handle_framed_chunk-frames_bytes fuel client fs s2 sent2 h.1)
        (handle_framed_frame fuel client s sent f)

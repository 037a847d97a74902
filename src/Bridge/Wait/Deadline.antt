-- ===== src/Bridge/Wait/Deadline.antt =====
-- bridge_loraham.c: bridge_loraham_wait_tx_result ends.
use loraham_kiss_tnc.Base.{
  ℕ, ◌≤◌, ◌<◌, ◌≡◌, refl, true, false, ◌||◌, List, [], ◌∷◌, Option, none, some, leb, ◌==◌, if_intro,
  and_then, Bytes, length, Result, ok, fail, err_tx_result, Ends, and_then-Ends, arith, ◌⊎◌, inl,
  inr,
}
use loraham_kiss_tnc.Bridge.Egress.Rounds.{handle_framed_frame_total}
use loraham_kiss_tnc.Bridge.Wait.{
  Waiting, count_drop, is_client_error, relay, read_rest, with_result, read_frames, Event,
  interrupted, quiet, broken, received, Round, wait_tx_result,
}
use loraham_kiss_tnc.Loraham.Framed
use loraham_kiss_tnc.Loraham.Framed.{
  FramedState, TxResult, max_payload, tx_result, decode_byte, decode_tx_result,
}
use loraham_kiss_tnc.Loraham.Framed.Stream.{Fits, IsValid, decode_byte-IsValid, decode_byte-Fits}

abbrev pub FramesValid : Waiting → Type 0
FramesValid x = IsValid x.frames

module _ (fuel : ℕ) (enough : max_payload < fuel) where
  relay_total :
      (x : Waiting) (f : Framed.Frame)
      → length f.payload ≤ max_payload
      → FramesValid x
      → Ends FramesValid (relay fuel x f)
  unfolding relay
  relay_total x f h v =
      let (r, e) =
        handle_framed_frame_total fuel x.client x.stats x.sent f (omega (arith, h, enough)) in
      and_then-Ends (λ _. Unit {0}) FramesValid (r, e, tt)
        (λ r _.
          if_intro (Ends FramesValid) (is_client_error r.result) (λ _. (_, refl, v))
            (λ _. (_, refl, v)))

  read_rest_total :
      (bs : Bytes) (x : Waiting)
      → FramesValid x
      → Ends (λ (y : Waiting × Result (Unit {0})). FramesValid y.0) (read_rest fuel x bs)
  unfolding read_rest
  read_rest_total [] x v = (_, refl, v)
  read_rest_total (b ∷ bs) x v =
      let Done = λ (y : Waiting × Result (Unit {0})). FramesValid y.0 in
      let st = (decode_byte x.frames b).0 in
      let x' : Waiting = record x { frames = st } in
      let v' = decode_byte-IsValid x.frames b v in
      elim (decode_byte x.frames b).1
          as (λ o.
            Fits o
            → Ends Done (elim o as (λ _. Option (Waiting × Result (Unit {0}))) [
              | Framed.Outcome.pending ↦ read_rest fuel x' bs
              | Framed.Outcome.dropped e ↦ some (count_drop x', fail err_tx_result)
              | Framed.Outcome.complete f ↦
                  elim (f.kind == tx_result) as (λ _. Option (Waiting × Result (Unit {0}))) [
                    | true ↦ read_rest fuel (count_drop x') bs
                    | false ↦ and_then (relay fuel x' f) (λ y. read_rest fuel y bs)
                  ]
            ])) [
              | Framed.Outcome.pending ↦ λ _. read_rest_total bs x' v'
              | Framed.Outcome.dropped e ↦ λ _. (_, refl, v')
              | Framed.Outcome.complete f ↦ λ fits.
                  elim (f.kind == tx_result)
                    as (λ k. Ends Done (elim k as (λ _. Option (Waiting × Result (Unit {0}))) [
                      | true ↦ read_rest fuel (count_drop x') bs
                      | false ↦ and_then (relay fuel x' f) (λ y. read_rest fuel y bs)
                    ])) [
                      | true ↦ read_rest_total bs (count_drop x') v'
                      | false ↦
                          and_then-Ends FramesValid Done (relay_total x' f (fits f refl) v')
                            (λ y w. read_rest_total bs y w)
                    ]
            ]
        (decode_byte-Fits x.frames b v)

  with_result_valid :
      (result : TxResult) (y : Waiting × Result (Unit {0}))
      → FramesValid y.0
      → FramesValid (with_result result y).0
  with_result_valid result (x, ok u) v = v
  with_result_valid result (x, fail e) v = v

  -- What a read leads to, when it holds a frame.
  abbrev on_frame : Waiting → Bytes → Framed.Frame → Option (Waiting × Option (Result TxResult))
  on_frame x bs f = elim (f.kind == tx_result) [
    | true ↦ elim (decode_tx_result f) [
      | fail e ↦ some (x, some (fail err_tx_result))
      | ok result ↦ and_then (read_rest fuel x bs) (λ y. some (with_result result y))
    ]
    | false ↦ and_then (relay fuel x f) (λ y. read_frames fuel y bs)
  ]

  abbrev Valid : Waiting × Option (Result TxResult) → Type 0
  Valid y = FramesValid y.0

  abbrev ValidRest : Waiting × Result (Unit {0}) → Type 0
  ValidRest y = FramesValid y.0

  on_frame_total :
      (x : Waiting) (bs : Bytes) (f : Framed.Frame)
      → length f.payload ≤ max_payload
      → FramesValid x
      → ((y : Waiting) → FramesValid y → Ends Valid (read_frames fuel y bs))
      → Ends Valid (on_frame x bs f)
  on_frame_total x bs f h v more =
      elim (f.kind == tx_result)
        as (λ k. Ends Valid (elim k as (λ _. Option (Waiting × Option (Result TxResult))) [
          | true ↦ elim (decode_tx_result f) as (λ _. Option (Waiting × Option (Result TxResult))) [
            | fail e ↦ some (x, some (fail err_tx_result))
            | ok result ↦ and_then (read_rest fuel x bs) (λ y. some (with_result result y))
          ]
          | false ↦ and_then (relay fuel x f) (λ y. read_frames fuel y bs)
        ])) [
          | true ↦
              elim (decode_tx_result f)
                as (λ d. Ends Valid (elim d as (λ _. Option (Waiting × Option (Result TxResult))) [
                  | fail e ↦ some (x, some (fail err_tx_result))
                  | ok result ↦ and_then (read_rest fuel x bs) (λ y. some (with_result result y))
                ])) [
                  | fail e ↦ (_, refl, v)
                  | ok result ↦
                      and_then-Ends ValidRest Valid (read_rest_total bs x v)
                        (λ y w. (_, refl, with_result_valid result y w))
                ]
          | false ↦ and_then-Ends FramesValid Valid (relay_total x f h v) more
        ]

  read_frames_total :
      (bs : Bytes) (x : Waiting) → FramesValid x → Ends Valid (read_frames fuel x bs)
  unfolding read_frames
  read_frames_total [] x v = (_, refl, v)
  read_frames_total (b ∷ bs) x v =
      let x' : Waiting = record x { frames = (decode_byte x.frames b).0 } in
      let v' = decode_byte-IsValid x.frames b v in
      elim (decode_byte x.frames b).1
          as (λ o.
            Fits o
            → Ends Valid (elim o as (λ _. Option (Waiting × Option (Result TxResult))) [
              | Framed.Outcome.pending ↦ read_frames fuel x' bs
              | Framed.Outcome.dropped e ↦ some (count_drop x', some (fail err_tx_result))
              | Framed.Outcome.complete f ↦ on_frame x' bs f
            ])) [
              | Framed.Outcome.pending ↦ λ _. read_frames_total bs x' v'
              | Framed.Outcome.dropped e ↦ λ _. (_, refl, v')
              | Framed.Outcome.complete f ↦
                  λ fits. on_frame_total x' bs f (fits f refl) v' (λ y w. read_frames_total bs y w)
            ]
        (decode_byte-Fits x.frames b v)

-- In one of the rounds a stop was requested, or the clock has reached the deadline.
abbrev pub Reaches : ℕ → List Round → Type 0
Reaches deadline [] = ⊥
Reaches deadline (r ∷ rs) = ((r.stop || leb deadline r.now) ≡ true) ⊎ Reaches deadline rs

abbrev pub Done : Waiting × Result TxResult → Type 0
Done y = FramesValid y.0

module _ (fuel deadline : ℕ) (enough : max_payload < fuel) where
  -- What a round does behind the test of the deadline.
  abbrev on_event : Waiting → List Round → Event → Option (Waiting × Result TxResult)
  on_event x rs e = elim e [
    | interrupted ↦ wait_tx_result fuel deadline x rs
    | quiet ↦ some (x, fail err_tx_result)
    | broken ↦ some (x, fail err_tx_result)
    | received bytes ↦ and_then (read_frames fuel x bytes) (λ (y, answer). elim answer [
      | none ↦ wait_tx_result fuel deadline y rs
      | some result ↦ some (y, result)
    ])
  ]

  on_event_total :
      (x : Waiting) (rs : List Round) (e : Event)
      → FramesValid x
      → ((y : Waiting) → FramesValid y → Ends Done (wait_tx_result fuel deadline y rs))
      → Ends Done (on_event x rs e)
  on_event_total x rs interrupted v more = more x v
  on_event_total x rs quiet v more = (_, refl, v)
  on_event_total x rs broken v more = (_, refl, v)
  on_event_total x rs (received bytes) v more =
      and_then-Ends (Valid fuel enough) Done (read_frames_total fuel enough bytes x v)
        (λ (y, answer) w.
          elim answer
            as (λ a. Ends Done (elim a as (λ _. Option (Waiting × Result TxResult)) [
              | none ↦ wait_tx_result fuel deadline y rs
              | some result ↦ some (y, result)
            ])) [ none ↦ more y w | some result ↦ (_, refl, w) ])

  -- With fuel above the 1024 bytes that a frame may carry, a wait from a valid decoder state ends with a
  -- result and such a state, whatever is received, if one of its rounds sees a stop or the deadline.
  pub wait_tx_result_total :
      (rs : List Round) (x : Waiting)
      → FramesValid x
      → Reaches deadline rs
      → Ends Done (wait_tx_result fuel deadline x rs)
  unfolding wait_tx_result
  wait_tx_result_total [] x v h = absurd h
  wait_tx_result_total (r ∷ rs) x v h =
      elim (r.stop || leb deadline r.now)
          as (λ k.
            (k ≡ true) ⊎ Reaches deadline rs
            → Ends Done (elim k as (λ _. Option (Waiting × Result TxResult)) [
              | true ↦ some (x, fail err_tx_result)
              | false ↦ on_event x rs r.event
            ])) [
              | true ↦ λ _. (_, refl, v)
              | false ↦ λ later. elim later [
                | inl bad ↦ absurd cc
                | inr next ↦ on_event_total x rs r.event v (λ y w. wait_tx_result_total rs y w next)
              ]
            ]
        h

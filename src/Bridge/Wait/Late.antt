-- ===== src/Bridge/Wait/Late.antt =====
-- bridge_loraham.c: bridge_loraham_wait_tx_complete ends.
use loraham_kiss_tnc.Base.{
  ℕ, ◌+◌, ◌≤◌, ◌≡◌, refl, true, false, not, ◌&&◌, ◌||◌, List, [], ◌∷◌, Option, some, leb, ◌==◌,
  if_intro, ◌⊎◌, inl, inr, Result, ok, fail, err, err_unsupported, Ends, and_then-Ends, arith,
}
use loraham_kiss_tnc.Bridge.Conf.{ConfState}
use loraham_kiss_tnc.Bridge.Shared.{Config}
use loraham_kiss_tnc.Bridge.Wait.{
  ConfRound, wait_read, wait_tx_start, wait_tx_idle, wait_tx_end, wait_tx_complete,
  tx_start_wait_ms,
}

-- One of the rounds sees the clock at `late` or behind it.
abbrev pub Late : ℕ → List ConfRound → Type 0
Late late [] = ⊥
Late late (r ∷ rs) = (late ≤ r.now) ⊎ Late late rs

abbrev Start : Type 0
Start = ConfState × List ConfRound × Result (Unit {0})

-- A first loop that saw a busy transmitter has left such a round.
abbrev LeftLate : ℕ → Start → Type 0
LeftLate late (st, rs, ok u) = Late late rs
LeftLate late (st, rs, fail e) = Unit

module _ (late deadline : ℕ) (before : deadline ≤ late) where
  over : (r : ConfRound) → late ≤ r.now → leb deadline r.now ≡ true
  over r h = ground (arith, before)

  wait_tx_start_total :
      (seq : ℕ) (rs : List ConfRound) (st : ConfState)
      → Late late rs
      → Ends (LeftLate late) (wait_tx_start deadline seq st rs)
  unfolding wait_tx_start
  wait_tx_start_total seq [] st h = absurd h
  wait_tx_start_total seq (r ∷ rs) st h =
      let P = Ends (LeftLate late) in
      let (st', result) = wait_read st r.event in
      elim (not (st.flags.tx_busy_seq == seq))
        as (λ b. P (elim b as (λ _. Option Start) [
          | true ↦ some (st, r ∷ rs, ok tt)
          | false ↦ elim (leb deadline r.now) as (λ _. Option Start) [
            | true ↦ some (st, rs, fail err_unsupported)
            | false ↦ elim result as (λ _. Option Start) [
              | ok u ↦ wait_tx_start deadline seq st' rs
              | fail e ↦ some (st', rs, fail err)
            ]
          ]
        ])) [
          | true ↦ (_, refl, h)
          | false ↦
              elim (leb deadline r.now)
                  as (λ b.
                    leb deadline r.now ≡ b
                    → P (elim b as (λ _. Option Start) [
                      | true ↦ some (st, rs, fail err_unsupported)
                      | false ↦ elim result as (λ _. Option Start) [
                        | ok u ↦ wait_tx_start deadline seq st' rs
                        | fail e ↦ some (st', rs, fail err)
                      ]
                    ])) [
                      | true ↦ λ _. (_, refl, tt)
                      | false ↦ λ early.
                          elim result
                            as (λ k. P (elim k as (λ _. Option Start) [
                              | ok u ↦ wait_tx_start deadline seq st' rs
                              | fail e ↦ some (st', rs, fail err)
                            ])) [
                              | ok u ↦ wait_tx_start_total seq rs st' (elim h [
                                | inl now ↦ let o = over r now in absurd cc
                                | inr next ↦ next
                              ])
                              | fail e ↦ (_, refl, tt)
                            ]
                    ]
                refl
        ]

  abbrev Any : ConfState × Result (Unit {0}) → Type 0
  Any x = Unit {0}

  wait_tx_idle_total :
      (rs : List ConfRound) (st : ConfState) → Late late rs → Ends Any (wait_tx_idle deadline st rs)
  unfolding wait_tx_idle
  wait_tx_idle_total [] st h = absurd h
  wait_tx_idle_total (r ∷ rs) st h =
      let P = Ends Any in
      let (st', result) = wait_read st r.event in
      elim st.flags.tx_busy
        as (λ b. P (elim b as (λ _. Option (ConfState × Result (Unit {0}))) [
          | false ↦ some (st, ok tt)
          | true ↦
              elim (r.stop || leb deadline r.now) as (λ _. Option (ConfState × Result (Unit {0}))) [
                | true ↦ some (st, fail err)
                | false ↦ elim result as (λ _. Option (ConfState × Result (Unit {0}))) [
                  | ok u ↦ wait_tx_idle deadline st' rs
                  | fail e ↦ some (st', fail err)
                ]
              ]
        ])) [
          | false ↦ (_, refl, tt)
          | true ↦
              elim (r.stop || leb deadline r.now)
                  as (λ b.
                    (r.stop || leb deadline r.now) ≡ b
                    → P (elim b as (λ _. Option (ConfState × Result (Unit {0}))) [
                      | true ↦ some (st, fail err)
                      | false ↦ elim result as (λ _. Option (ConfState × Result (Unit {0}))) [
                        | ok u ↦ wait_tx_idle deadline st' rs
                        | fail e ↦ some (st', fail err)
                      ]
                    ])) [
                      | true ↦ λ _. (_, refl, tt)
                      | false ↦ λ early.
                          elim result
                            as (λ k. P (elim k as (λ _. Option (ConfState × Result (Unit {0}))) [
                              | ok u ↦ wait_tx_idle deadline st' rs
                              | fail e ↦ some (st', fail err)
                            ])) [
                              | ok u ↦ wait_tx_idle_total rs st' (elim h [
                                | inl now ↦ let o = over r now in absurd (ground arith)
                                | inr next ↦ next
                              ])
                              | fail e ↦ (_, refl, tt)
                            ]
                    ]
                refl
        ]

-- The wait on the CONF lines ends, if one of its rounds sees the clock past both deadlines.
pub wait_tx_complete_total :
    (cfg : Config) (st : ConfState) (start later late : ℕ) (rs : List ConfRound)
    → start + tx_start_wait_ms ≤ late
    → later + cfg.tx_busy_timeout_ms ≤ late
    → Late late rs
    → Ends (λ _. Unit {0}) (wait_tx_complete cfg st start later rs)
unfolding wait_tx_complete
wait_tx_complete_total cfg st start later late rs h k l =
    and_then-Ends (LeftLate late) (λ (x : ConfState × Result (Unit {0})). Unit {0})
      (if_intro (Ends (LeftLate late)) st.flags.tx_busy (λ _. (_, refl, l))
        (λ _. wait_tx_start_total late (start + tx_start_wait_ms) h st.flags.tx_busy_seq rs st l))
      (λ (st', rs', r) left.
        elim r
            as (λ r.
              LeftLate late (st', rs', r)
              → Ends (λ (x : ConfState × Result (Unit {0})). Unit {0})
                  (wait_tx_end cfg st later (st', rs', r))) [
                    | fail e ↦ λ _. (_, refl, tt)
                    | ok u ↦ λ left.
                        if_intro (Ends (λ (x : ConfState × Result (Unit {0})). Unit {0}))
                          (not st'.flags.tx_busy
                            && not (st'.flags.tx_busy_seq == st.flags.tx_busy_seq)
                            && not (st'.flags.tx_idle_seq == st.flags.tx_idle_seq))
                          (λ _. (_, refl, tt))
                          (λ _.
                            wait_tx_idle_total late (later + cfg.tx_busy_timeout_ms) k rs' st' left)
                  ]
          left)

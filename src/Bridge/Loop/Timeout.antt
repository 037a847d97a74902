-- ===== src/Bridge/Loop/Timeout.antt =====
-- bridge.c: how long select may block a round.
use loraham_kiss_tnc.Base.{
  ℕ, ◌+◌, ◌-◌, ◌*◌, ◌≤◌, ◌<◌, ◌≡◌, ◌⊎◌, true, false, not, ◌||◌, Option, none, some, ltb, if_intro,
  ltb→lt, arith,
}
use loraham_kiss_tnc.Bridge.Links.{Bridge}
use loraham_kiss_tnc.Bridge.Loop.{base_timeout, next_stats, sooner, or_idle, select_timeout}
use loraham_kiss_tnc.Bridge.Shared.{Config}
use loraham_kiss_tnc.Bridge.TxQueue.{queue_empty}

-- A socket is missing, or has not got its configuration.
abbrev pub IsIncomplete : Bridge → Type 0
IsIncomplete b = (b.fds.data_open ≡ false) ⊎ (b.fds.conf_open ≡ false) ⊎ (b.config_ok ≡ false)

abbrev pub PacketsWait : Bridge → Type 0
PacketsWait b = (b.fds.data_open ≡ true) × (b.fds.conf_open ≡ true) × (queue_empty b.queue ≡ false)

pub record InTime (cfg : Config) (now : ℕ) (b : Bridge) (t : ℕ) (b' : Bridge) : Type 0 where
  pub no_spin : 0 < t
  pub poll_queue : PacketsWait b → t ≤ 100000
  pub try_again : IsIncomplete b → t ≤ 1000000
  pub idle : cfg.stats_interval ≡ 0 → t ≤ 5000000
  pub statistics : 0 < cfg.stats_interval → t ≤ (b'.next_stats_ms - now) * 1000
  pub next_statistics :
      0 < cfg.stats_interval
      → (now < b'.next_stats_ms) × (b'.next_stats_ms ≤ now + cfg.stats_interval * 1000)

next_stats-lt :
    (cfg : Config) (now next : ℕ)
    → next ≤ now + cfg.stats_interval * 1000
    → 0 < cfg.stats_interval
    → (now < next_stats cfg now next) × (next_stats cfg now next ≤ now + cfg.stats_interval * 1000)
next_stats-lt cfg now next h k = ground arith

-- A time limit that is set, and at most some number.
abbrev Below : ℕ → Option ℕ → Type 0
Below k none = ⊥
Below k (some t) = t ≤ k

record Base (b : Bridge) (o : Option ℕ) : Type 0 where
  above : 0 < or_idle o
  at_most : or_idle o ≤ 5000000
  poll : PacketsWait b → Below 100000 o
  again : IsIncomplete b → Below 1000000 o

base_timeout-Base : (b : Bridge) → Base b (base_timeout b)
base_timeout-Base b =
    if_intro (Base b) (not b.fds.data_open || not b.fds.conf_open)
      (λ lost. record {
        above = omega arith;
        at_most = omega arith;
        poll = λ w. absurd (ground arith);
        again = λ _. omega arith;
      })
      (λ joined.
        if_intro (Base b) (not (queue_empty b.queue))
          (λ full. record {
            above = omega arith;
            at_most = omega arith;
            poll = λ _. omega arith;
            again = λ _. omega arith;
          })
          (λ empty.
            if_intro (Base b) (not b.config_ok)
              (λ bare. record {
                above = omega arith;
                at_most = omega arith;
                poll = λ w. absurd (ground arith);
                again = λ _. omega arith;
              })
              (λ well. record {
                above = omega arith;
                at_most = omega arith;
                poll = λ w. absurd (ground arith);
                again = λ w. absurd (ground arith);
              })))

Below-or_idle : (k : ℕ) (o : Option ℕ) → Below k o → or_idle o ≤ k
Below-or_idle k none h = absurd h
Below-or_idle k (some t) h = h

Below-sooner : (k : ℕ) (o : Option ℕ) (wait : ℕ) → Below k o → sooner o wait ≤ k
Below-sooner k none wait h = absurd h
Below-sooner k (some t) wait h = ground arith

sooner-le : (o : Option ℕ) (wait : ℕ) → sooner o wait ≤ wait
sooner-le none wait = omega arith
sooner-le (some t) wait = ground arith

sooner_pos : (o : Option ℕ) (wait : ℕ) → 0 < or_idle o → 0 < wait → 0 < sooner o wait
sooner_pos none wait h k = k
sooner_pos (some t) wait h k = ground arith

-- With the next statistics at most one interval ahead, select is never called with a time limit of 0, so the loop
-- does not spin, and waits at most 100 ms while both sockets are connected and packets wait, at most
-- 1 s while a socket is missing or its configuration was not taken, at most 5 s where statistics are off,
-- and else until they are due at most; with statistics on, they are due later than now, and at most one
-- interval ahead again.
pub select_timeout-InTime :
    (cfg : Config) (now : ℕ) (b : Bridge)
    → b.next_stats_ms ≤ now + cfg.stats_interval * 1000
    → let (t, b') = select_timeout cfg now b in InTime cfg now b t b'
unfolding select_timeout
select_timeout-InTime cfg now b h =
    let base = base_timeout-Base b in
    let next = next_stats cfg now b.next_stats_ms in
    if_intro (λ (x : ℕ × Bridge). InTime cfg now b x.0 x.1) (ltb 0 cfg.stats_interval)
      (λ on.
        let due = next_stats-lt cfg now b.next_stats_ms h (ltb→lt 0 cfg.stats_interval on) in
        let wait = (next - now) * 1000 in
        record {
          no_spin = sooner_pos (base_timeout b) wait base.above (omega (arith, due));
          poll_queue = λ w. Below-sooner 100000 (base_timeout b) wait (base.poll w);
          try_again = λ w. Below-sooner 1000000 (base_timeout b) wait (base.again w);
          idle = λ z. absurd (ground arith);
          statistics = λ _. sooner-le (base_timeout b) wait;
          next_statistics = λ _. due;
        })
      (λ off. record {
        no_spin = base.above;
        poll_queue = λ w. Below-or_idle 100000 (base_timeout b) (base.poll w);
        try_again = λ w. Below-or_idle 1000000 (base_timeout b) (base.again w);
        idle = λ _. base.at_most;
        statistics = λ k. absurd (ground arith);
        next_statistics = λ k. absurd (ground arith);
      })

-- ===== src/Bridge/Conf/Cad.antt =====
-- bridge_conf.c: bridge_conf_collect_cad_stats, the CAD counters of the statistics.
use loraham_kiss_tnc.Base.{ℕ, ◌+◌, ◌-◌, ◌%◌, ◌^◌, ◌<◌, ◌≡◌, Bool, ltb, if◌then◌else◌, arith}
use loraham_kiss_tnc.Bridge.Conf.{Flags}

-- The three fields of lhkt_stats_t, and the sequence numbers that the caller keeps.
pub record CadStats : Type 0 where
  pub cad_busy_events : ℕ
  pub cad_idle_events : ℕ
  pub cad_current_busy : Bool
  pub last_busy_seq : ℕ
  pub last_idle_seq : ℕ

-- The number kept, lowered to a sequence number that began anew.
abbrev pub lowered : ℕ → ℕ → ℕ
lowered seq last = if ltb seq last then seq else last

-- `events += seq - last` where there are new events.
abbrev pub events_with : ℕ → ℕ → ℕ → ℕ
events_with seq last events = if ltb last seq then (events + (seq - last)) % 2 ^ 64 else events

abbrev pub last_with : ℕ → ℕ → ℕ
last_with seq last = if ltb last seq then seq else last

unfoldable pub collect_cad_stats : Flags → CadStats → CadStats
collect_cad_stats f s =
    let last_busy = lowered f.cad_busy_seq s.last_busy_seq in
    let last_idle = lowered f.cad_idle_seq s.last_idle_seq in
    record {
      cad_busy_events = events_with f.cad_busy_seq last_busy s.cad_busy_events;
      cad_idle_events = events_with f.cad_idle_seq last_idle s.cad_idle_events;
      cad_current_busy = f.cad_busy;
      last_busy_seq = last_with f.cad_busy_seq last_busy;
      last_idle_seq = last_with f.cad_idle_seq last_idle;
    }

-- With 64-bit counters, each collection adds to each counter the events since the one before, or nothing where the
-- sequence began anew, modulo 2 ^ 64, and keeps the present sequence numbers for the next one.
pub collect_cad_stats_counts :
    (f : Flags) (s : CadStats)
    → s.cad_busy_events < 2 ^ 64
    → s.cad_idle_events < 2 ^ 64
    → let s' = collect_cad_stats f s in
      (s'.cad_busy_events ≡ (s.cad_busy_events + (f.cad_busy_seq - s.last_busy_seq)) % 2 ^ 64)
      × (s'.cad_idle_events ≡ (s.cad_idle_events + (f.cad_idle_seq - s.last_idle_seq)) % 2 ^ 64)
      × (s'.last_busy_seq ≡ f.cad_busy_seq)
      × (s'.last_idle_seq ≡ f.cad_idle_seq)
unfolding collect_cad_stats
collect_cad_stats_counts f s h k = (ground arith, ground arith, ground arith, ground arith)

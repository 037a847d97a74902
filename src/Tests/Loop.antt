-- ===== src/Tests/Loop.antt =====
-- bridge.c at fixed inputs: the daemon is down at the start and comes up later.
use loraham_kiss_tnc.Base.{◌*◌, ◌+◌, ◌≤◌, ◌≡◌, refl, true, false, some, arith}
use loraham_kiss_tnc.Bridge.Conf.Cad.{CadStats, collect_cad_stats}
use loraham_kiss_tnc.Bridge.Links.{
  Bridge, Takes, start, send_initial_config, react_drain, react, reconnect,
}
use loraham_kiss_tnc.Bridge.Loop.{Input, timed_out, round, select_timeout, handle_select}
use loraham_kiss_tnc.Bridge.Loop.Fresh.{Fresh}
use loraham_kiss_tnc.Bridge.Loop.Rounds.{here, next, Runs-Fresh}
use loraham_kiss_tnc.Bridge.Loop.Timeout.{InTime, select_timeout-InTime}
use loraham_kiss_tnc.Bridge.Transmit.{drain}
use loraham_kiss_tnc.Bridge.TxQueue.{queue_init, queue_head}
use loraham_kiss_tnc.Tests.Airtime.{cfg, env, world, watch, looks}

abbrev cad : CadStats
cad = record {
  cad_busy_events = 0;
  cad_idle_events = 0;
  cad_current_busy = false;
  last_busy_seq = 0;
  last_idle_seq = 0;
}

abbrev takes : Takes
takes = record { config_line = true; txresult_line = true; status_line = true }

abbrev down : Bridge
down = start false false takes world cad queue_init

abbrev input : Input
input = record {
  env = env;
  watch = watch;
  looks = looks;
  select_ms = 1000;
  now = 2000;
  select = timed_out true true takes;
}

-- The CONF socket is the first to be connected.
abbrev up : Bridge
up = record down { fds = record down.fds { conf_open = true } }

first : round 1025 cfg input down ≡ some (up, true)
unfolding round drain queue_head react_drain react select_timeout handle_select reconnect
    send_initial_config start collect_cad_stats
first = refl

Runs-Fresh_example : Fresh up
Runs-Fresh_example =
    Runs-Fresh 1025 cfg false false takes world cad queue_init up (next input true here first)

early : up.next_stats_ms ≤ 1000 + 900 * 1000
unfolding start
early = omega arith

select_timeout-InTime_example :
    let x = select_timeout (record cfg { stats_interval = 900 }) 1000 up in
    InTime (record cfg { stats_interval = 900 }) 1000 up x.0 x.1
select_timeout-InTime_example =
    select_timeout-InTime (record cfg { stats_interval = 900 }) 1000 up early

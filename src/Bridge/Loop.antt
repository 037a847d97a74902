-- ===== src/Bridge/Loop.antt =====
-- bridge.c: one round of lhkt_bridge_run. What the system calls answer in a round is its input.
pub mod Timeout
pub mod Fresh
pub mod Reports
pub mod Rounds
use loraham_kiss_tnc.Base.{
  ℕ, suc, ◌+◌, ◌-◌, ◌*◌, and_then, Bool, true, false, not, ◌&&◌, ◌||◌, List, [], ◌∷◌, Option, none,
  some, ltb, leb, ◌==◌, if◌then◌else◌, Bytes, Result, ok, fail,
}
use loraham_kiss_tnc.Bridge.Conf.Cad.{collect_cad_stats}
use loraham_kiss_tnc.Bridge.Egress.{Reply, Client, handle_framed_chunk}
use loraham_kiss_tnc.Bridge.Ingress
use loraham_kiss_tnc.Bridge.Ingress.{handle_frame}
use loraham_kiss_tnc.Bridge.Links.{
  Bridge, Takes, lose_data, lose_conf, lose_client, react, react_drain, should_disconnect_client,
  reconnect,
}
use loraham_kiss_tnc.Bridge.Radio.{Env, World}
use loraham_kiss_tnc.Bridge.Shared.{Config, bump}
use loraham_kiss_tnc.Bridge.Transmit.{Fds, Watch, Look, Drained, drain}
use loraham_kiss_tnc.Bridge.TxQueue.{queue_empty}
use loraham_kiss_tnc.Bridge.Wait.{Available, read_available}
use loraham_kiss_tnc.Kiss
use loraham_kiss_tnc.Kiss.{decode_byte, decoder_init, params_init}
use loraham_kiss_tnc.Loraham.Framed.{FramedState}

-- What select and the calls behind it answer. A part is `none` where select does not report it.
pub data Accept : Type 0 where
  again accept_failed unusable : Accept
  accepted : (Bytes → Bool) → Accept

-- `interrupted` is a read to be tried again.
pub data Read : Type 0 where
  interrupted broken closed : Read
  received : Bytes → Read

pub record Ready : Type 0 where
  pub on_listen : Option Accept
  pub on_client : Option Read
  pub on_conf : Option Available
  pub on_data : Option Read

pub data Select : Type 0 where
  select_interrupted select_failed : Select
  timed_out : Bool → Bool → Takes → Select
  ready : Ready → Select

-- The time that select may take, in microseconds, before the statistics are looked at.
abbrev pub base_timeout : Bridge → Option ℕ
base_timeout b =
    if not b.fds.data_open || not b.fds.conf_open
    then some 1000000
    else if not (queue_empty b.queue)
    then some 100000
    else if not b.config_ok
    then some 1000000
    else none

-- When the statistics are printed next.
abbrev pub next_stats : Config → ℕ → ℕ → ℕ
next_stats cfg now next =
    let first = if next == 0 then now + cfg.stats_interval * 1000 else next in
    if leb first now then now + cfg.stats_interval * 1000 else first

abbrev pub sooner : Option ℕ → ℕ → ℕ
sooner none wait = wait
sooner (some t) wait = if ltb wait t then wait else t

abbrev pub or_idle : Option ℕ → ℕ
or_idle none = 5000000
or_idle (some t) = t

-- select's time limit, and the loop's state with the next time for the statistics.
unfoldable pub select_timeout : Config → ℕ → Bridge → ℕ × Bridge
select_timeout cfg now b =
    if ltb 0 cfg.stats_interval
    then (
      sooner (base_timeout b) ((next_stats cfg now b.next_stats_ms - now) * 1000),
      record b { next_stats_ms = next_stats cfg now b.next_stats_ms },
    )
    else (or_idle (base_timeout b), b)

abbrev pub collect : Bridge → Bridge
collect b = record b { cad = collect_cad_stats b.world.conf.flags b.cad }

-- The first part of a round: the queue, and what its error leads to.
abbrev pub after_drain : Bridge → Drained → Bridge
after_drain b d = collect (react_drain d.result (record b { world = d.world; queue = d.queue }))

-- One byte from the client.
unfoldable pub client_byte : Config → ℕ → Bridge → ℕ → Bridge
unfolding react
client_byte cfg now b c =
    let (dec, o) = decode_byte b.decoder c in
    let b' : Bridge = record b { decoder = dec } in
    elim o [
      | Kiss.Outcome.pending ↦ b'
      | Kiss.Outcome.dropped e ↦ record b' {
        world = record b.world {
          stats = record b.world.stats { kiss_drop = bump b.world.stats.kiss_drop };
        };
      }
      | Kiss.Outcome.complete f ↦
          let s = record b.world.stats { kiss_rx = bump b.world.stats.kiss_rx } in
          let (params, r) = handle_frame cfg now b.params s b.queue f in
          react r.result (record b' {
            world = record b.world { stats = r.stats };
            queue = r.queue;
            params = params;
          })
    ]

abbrev pub client_bytes : Config → ℕ → Bridge → Bytes → Bridge
client_bytes cfg now b [] = b
client_bytes cfg now b (c ∷ cs) = client_bytes cfg now (client_byte cfg now b c) cs

-- What follows a part of the round: the rest of the round, or the next round.
pub data Next : Type 0 where
  go_on skip : Bridge → Next

abbrev pub on_listen : Bridge → Option Accept → Next
on_listen b none = go_on b
on_listen b (some again) = skip b
on_listen b (some accept_failed) = skip b
on_listen b (some unusable) = skip b
on_listen b (some (accepted client)) = go_on (record b {
  fds = record b.fds { client = some client };
  decoder = decoder_init;
  params = params_init;
})

abbrev pub count_disconnect : Bridge → Bridge
count_disconnect b = record b {
  world = record b.world {
    stats = record b.world.stats { client_disconnects = bump b.world.stats.client_disconnects };
  };
}

abbrev pub on_client : Config → ℕ → Bridge → Option Read → Next
on_client cfg now b none = go_on b
on_client cfg now b (some interrupted) = skip b
on_client cfg now b (some broken) = skip (lose_client b)
on_client cfg now b (some closed) = skip (lose_client (count_disconnect b))
on_client cfg now b (some (received bytes)) = go_on (client_bytes cfg now b bytes)

abbrev pub with_conf : Bridge → Option Available → Bridge
with_conf b none = b
with_conf b (some a) =
    let (st, r) = read_available b.world.conf a in
    let b' : Bridge = record b { world = record b.world { conf = st } } in
    elim r [ ok u ↦ collect b' | fail e ↦ lose_conf b' ]

-- Behind a read from the daemon that was decoded.
abbrev pub after_chunk : Bridge → FramedState × Reply → Bridge
after_chunk b (st, r) =
    let b' : Bridge = record b {
      world = record b.world { frames = st; stats = r.stats; sent = r.sent };
    } in
    if should_disconnect_client r.result
    then lose_client b'
    else elim r.result [ ok u ↦ b' | fail e ↦ lose_data b' ]

abbrev pub on_data : ℕ → Bridge → Option Read → Option Bridge
on_data fuel b none = some b
on_data fuel b (some interrupted) = some b
on_data fuel b (some broken) = some (lose_data b)
on_data fuel b (some closed) = some (lose_data b)
on_data fuel b (some (received bytes)) =
    and_then (handle_framed_chunk fuel b.fds.client b.world.stats b.world.sent b.world.frames bytes)
      (λ r. some (after_chunk b r))

-- A descriptor that is not connected is not in select's set.
abbrev pub if_open {ℓ} : {A : Type ℓ} → Bool → Option A → Option A
if_open connected o = if connected then o else none

abbrev pub is_connected : Client → Bool
is_connected none = false
is_connected (some accepts) = true

abbrev pub handle_daemon : ℕ → Ready → Next → Option Bridge
handle_daemon fuel r (skip b) = some b
handle_daemon fuel r (go_on b) =
    let b' = with_conf b (if_open b.fds.conf_open r.on_conf) in
    on_data fuel b' (if_open b'.fds.data_open r.on_data)

abbrev pub handle_client : Config → ℕ → ℕ → Bool → Ready → Next → Option Bridge
handle_client cfg now fuel connected r (skip b) = some b
handle_client cfg now fuel connected r (go_on b) =
    handle_daemon fuel r (on_client cfg now b (if_open connected r.on_client))

unfoldable pub handle_ready : Config → ℕ → ℕ → Bridge → Ready → Option Bridge
unfolding client_byte lose_conf lose_data lose_client handle_framed_chunk
handle_ready cfg now fuel b r =
    handle_client cfg now fuel (is_connected b.fds.client) r
      (on_listen b (if_open (not (is_connected b.fds.client)) r.on_listen))

-- The rest of a round: `none` in the pair is the end of the loop.
unfoldable pub handle_select : Config → ℕ → ℕ → Bridge → Select → Option (Bridge × Bool)
unfolding handle_ready reconnect
handle_select cfg now fuel b select_interrupted = some (b, true)
handle_select cfg now fuel b select_failed = some (b, false)
handle_select cfg now fuel b (timed_out conf_up data_up takes) =
    some (reconnect conf_up data_up takes b, true)
handle_select cfg now fuel b (ready r) =
    and_then (handle_ready cfg now fuel b r) (λ b'. some (b', true))

-- What a round meets: the transmission's world, the clock at select and behind it, and select's answer.
pub record Input : Type 0 where
  pub env : Env
  pub watch : Watch
  pub looks : ℕ → Look
  pub select_ms : ℕ
  pub now : ℕ
  pub select : Select

-- One round of the loop: the state behind it, and whether the loop goes on. `fuel` bounds the frames'
-- loops, and the drain's rounds are bounded by the packets that wait.
unfoldable pub round : ℕ → Config → Input → Bridge → Option (Bridge × Bool)
unfolding drain react_drain select_timeout handle_select
round fuel cfg i b =
    and_then (drain fuel i.env cfg b.fds i.watch i.looks 0 (suc b.queue.count) b.world b.queue)
      (λ d.
        handle_select cfg i.now fuel (select_timeout cfg i.select_ms (after_drain b d)).1 i.select)

-- ===== src/Bridge/Loop/Rounds.antt =====
-- bridge.c: a round of the loop, and its rounds one after the other, keep the state fresh.
use loraham_kiss_tnc.Base.{
  ℕ, suc, ◌≡◌, refl, ◌∙◌, subst, ltb, Bool, some, if_intro, OnSome, and_then-OnSome, arith,
}
use loraham_kiss_tnc.Bridge.Conf.Cad.{CadStats}
use loraham_kiss_tnc.Bridge.Links.{Bridge, Takes, react_drain, send_initial_config, start}
use loraham_kiss_tnc.Bridge.Loop.{select_timeout, collect, after_drain, handle_select, Input, round}
use loraham_kiss_tnc.Bridge.Radio.{World}
use loraham_kiss_tnc.Bridge.Shared.{Config}
use loraham_kiss_tnc.Bridge.Transmit.{Drained, drain}
use loraham_kiss_tnc.Bridge.Transmit.Closed.{Untouched, drain-Untouched}
use loraham_kiss_tnc.Bridge.TxQueue.{TxQueue}
use loraham_kiss_tnc.Bridge.Loop.Fresh.{Fresh, react_drain-Fresh}
use loraham_kiss_tnc.Bridge.Loop.Reports.{GoesOnFresh, handle_select-Fresh}

collect-Fresh : (b : Bridge) → Fresh b → Fresh (collect b)
collect-Fresh b h = record {
  frames_fresh = h.frames_fresh;
  conf_fresh = h.conf_fresh;
  unconfigured = h.unconfigured;
  decoder_fresh = h.decoder_fresh;
  params_fresh = h.params_fresh;
}

select_timeout-Fresh :
    (cfg : Config) (now : ℕ) (b : Bridge) → Fresh b → Fresh (select_timeout cfg now b).1
unfolding select_timeout
select_timeout-Fresh cfg now b h =
    if_intro (λ (x : ℕ × Bridge). Fresh x.1) (ltb 0 cfg.stats_interval)
      (λ _. record {
        frames_fresh = h.frames_fresh;
        conf_fresh = h.conf_fresh;
        unconfigured = h.unconfigured;
        decoder_fresh = h.decoder_fresh;
        params_fresh = h.params_fresh;
      })
      (λ _. h)

after_drain-Fresh :
    (b : Bridge) (d : Drained) → Fresh b → Untouched b.fds b.world d → Fresh (after_drain b d)
after_drain-Fresh b d h u =
    let b' : Bridge = record b { world = d.world; queue = d.queue } in
    let h' : Fresh b' = record {
      frames_fresh = λ z. u.frames_same (rw z refl) ∙ h.frames_fresh z;
      conf_fresh = λ z. u.conf_same z ∙ h.conf_fresh z;
      unconfigured = h.unconfigured;
      decoder_fresh = h.decoder_fresh;
      params_fresh = h.params_fresh;
    } in
    collect-Fresh (react_drain d.result b') (react_drain-Fresh d.result b' h')

-- Whatever a round of the loop meets, the state behind it is fresh again: without the DATA socket the frame
-- decoder is in its initial state, without the CONF socket so is the state of its lines and no
-- configuration counts as sent, and without a client so are the KISS decoder and its parameters. So
-- nothing that one connection has left is taken for a part of the next.
pub round-Fresh :
    (fuel : ℕ) (cfg : Config) (i : Input) (b : Bridge)
    → Fresh b
    → OnSome GoesOnFresh (round fuel cfg i b)
unfolding round
round-Fresh fuel cfg i b h =
    and_then-OnSome (Untouched b.fds b.world) GoesOnFresh
      (drain fuel i.env cfg b.fds i.watch i.looks 0 (suc b.queue.count) b.world b.queue)
      (λ d.
        handle_select cfg i.now fuel (select_timeout cfg i.select_ms (after_drain b d)).1 i.select)
      (drain-Untouched fuel i.env cfg b.fds i.watch i.looks (suc b.queue.count) 0 b.world b.world
        b.queue (λ _. refl) refl)
      (λ d u.
        handle_select-Fresh cfg i.now fuel (select_timeout cfg i.select_ms (after_drain b d)).1
          i.select
          (select_timeout-Fresh cfg i.select_ms (after_drain b d) (after_drain-Fresh b d h u)))

pub start-Fresh :
    (conf_up data_up : Bool) (takes : Takes) (w : World) (cad : CadStats) (q : TxQueue)
    → Fresh (start conf_up data_up takes w cad q)
unfolding start send_initial_config
start-Fresh conf_up data_up takes w cad q = ground arith

-- Rounds of the loop, one after the other.
pub data Runs (fuel : ℕ) (cfg : Config) (b : Bridge) : Bridge → Type 0 where
  here : Runs fuel cfg b b
  next :
      {b1 b2 : Bridge} (i : Input) (more : Bool)
      → Runs fuel cfg b b1
      → round fuel cfg i b1 ≡ some (b2, more)
      → Runs fuel cfg b b2

-- However the bridge is started, and whatever its rounds meet, its state is fresh behind each of them:
-- without the DATA socket the frame decoder is in its initial state, without the CONF socket so is the
-- state of its lines and no configuration counts as sent, and without a client so are the KISS decoder
-- and its parameters.
pub Runs-Fresh :
    (fuel : ℕ) (cfg : Config) (conf_up data_up : Bool) (takes : Takes) (w : World) (cad : CadStats)
    (q : TxQueue) (b : Bridge)
    → Runs fuel cfg (start conf_up data_up takes w cad q) b
    → Fresh b
Runs-Fresh fuel cfg conf_up data_up takes w cad q b here = start-Fresh conf_up data_up takes w cad q
Runs-Fresh fuel cfg conf_up data_up takes w cad q b (next {b1 = b1} i more r e) =
    subst (OnSome GoesOnFresh) e
      (round-Fresh fuel cfg i b1 (Runs-Fresh fuel cfg conf_up data_up takes w cad q b1 r))

-- ===== src/Bridge/Loop/Fresh.antt =====
-- bridge.c: no state outlives the connection that it belongs to.
use loraham_kiss_tnc.Base.{
  ℕ, ◌≡◌, refl, ◌∙◌, ap, sym, Bool, true, false, [], ◌∷◌, if_intro, Bytes, Result, arith,
}
use loraham_kiss_tnc.Bridge.Conf.{conf_state_init}
use loraham_kiss_tnc.Bridge.Ingress.{handle_frame}
use loraham_kiss_tnc.Bridge.Links.{
  Bridge, Takes, lose_data, lose_conf, lose_client, react, react_drain, should_reconnect_data,
  should_reconnect_conf, should_disconnect_client, send_initial_config, configure, connect_data,
  reconnect, count_reconnect,
}
use loraham_kiss_tnc.Bridge.Loop.{client_byte, client_bytes, is_connected}
use loraham_kiss_tnc.Bridge.Shared.{Config, bump}
use loraham_kiss_tnc.Bridge.Transmit.{Fds}
use loraham_kiss_tnc.Kiss
use loraham_kiss_tnc.Kiss.{decode_byte, decoder_init, params_init}
use loraham_kiss_tnc.Loraham.Framed.{state_init}

-- Without the DATA socket the frame decoder is in its initial state; without the CONF socket so is the state of
-- its lines, and no configuration counts as sent; without a client so are the KISS decoder and its
-- parameters.
pub record Fresh (b : Bridge) : Type 0 where
  pub frames_fresh : b.fds.data_open ≡ false → b.world.frames ≡ state_init
  pub conf_fresh : b.fds.conf_open ≡ false → b.world.conf ≡ conf_state_init
  pub unconfigured : b.fds.conf_open ≡ false → b.config_ok ≡ false
  pub decoder_fresh : is_connected b.fds.client ≡ false → b.decoder ≡ decoder_init
  pub params_fresh : is_connected b.fds.client ≡ false → b.params ≡ params_init

pub lose_data-Fresh : (b : Bridge) → Fresh b → Fresh (lose_data b)
unfolding lose_data
lose_data-Fresh b h = ground (arith, h.conf_fresh, h.decoder_fresh, h.params_fresh)

pub lose_conf-Fresh : (b : Bridge) → Fresh b → Fresh (lose_conf b)
unfolding lose_conf
lose_conf-Fresh b h = ground (arith, h.conf_fresh, h.frames_fresh, h.decoder_fresh, h.params_fresh)

pub lose_client-Fresh : (b : Bridge) → Fresh b → Fresh (lose_client b)
unfolding lose_client
lose_client-Fresh b h = ground (arith, h.conf_fresh, h.frames_fresh, h.unconfigured)

react-Fresh : (r : Result (Unit {0})) (b : Bridge) → Fresh b → Fresh (react r b)
unfolding react
react-Fresh r b h =
    if_intro Fresh (should_reconnect_data r) (λ _. lose_data-Fresh b h)
      (λ _. if_intro Fresh (should_reconnect_conf r) (λ _. lose_conf-Fresh b h) (λ _. h))

pub react_drain-Fresh : (r : Result (Unit {0})) (b : Bridge) → Fresh b → Fresh (react_drain r b)
unfolding react_drain
react_drain-Fresh r b h =
    if_intro Fresh (should_disconnect_client r) (λ _. lose_client-Fresh b h)
      (λ _. react-Fresh r b h)

configure-Fresh : (takes : Takes) (b : Bridge) → Fresh b → Fresh (configure takes b)
unfolding send_initial_config
configure-Fresh takes b h =
    ground (arith, h.conf_fresh, h.frames_fresh, h.unconfigured, h.decoder_fresh, h.params_fresh)

connect_data-Fresh :
    (connected : Bool) (takes : Takes) (b : Bridge)
    → Fresh b
    → Fresh (connect_data connected takes b)
connect_data-Fresh connected takes b h =
    let b' : Bridge = record b {
      fds = record b.fds { data_open = true };
      world = record (count_reconnect b.world) { frames = state_init };
    } in
    let h' : Fresh b' = record {
      frames_fresh = λ _. refl;
      conf_fresh = h.conf_fresh;
      unconfigured = h.unconfigured;
      decoder_fresh = h.decoder_fresh;
      params_fresh = h.params_fresh;
    } in
    if_intro Fresh connected (λ _. configure-Fresh takes b' h') (λ _. h)

pub reconnect-Fresh :
    (conf_up data_up : Bool) (takes : Takes) (b : Bridge)
    → Fresh b
    → Fresh (reconnect conf_up data_up takes b)
unfolding reconnect
reconnect-Fresh conf_up data_up takes b h =
    if_intro Fresh b.fds.conf_open
      (λ _.
        if_intro Fresh b.fds.data_open
          (λ _. if_intro Fresh b.config_ok (λ _. h) (λ _. configure-Fresh takes b h))
          (λ _. connect_data-Fresh data_up takes b h))
      (λ _.
        if_intro Fresh conf_up
          (λ _. record {
            frames_fresh = h.frames_fresh;
            conf_fresh = λ _. refl;
            unconfigured = λ z. absurd cc;
            decoder_fresh = h.decoder_fresh;
            params_fresh = h.params_fresh;
          })
          (λ _. h))

-- A client is connected, so that its decoder may stand anywhere.
pub record Served (b : Bridge) : Type 0 where
  pub fresh : Fresh b
  pub served : is_connected b.fds.client ≡ true

react-client : (r : Result (Unit {0})) (b : Bridge) → (react r b).fds.client ≡ b.fds.client
unfolding react lose_data lose_conf
react-client r b = ground arith

react-Served : (r : Result (Unit {0})) (b : Bridge) → Served b → Served (react r b)
react-Served r b h = record {
  fresh = react-Fresh r b h.fresh;
  served = rw (react-client r b) h.served;
}

client_byte-Served :
    (cfg : Config) (now : ℕ) (b : Bridge) (c : ℕ) → Served b → Served (client_byte cfg now b c)
unfolding client_byte
client_byte-Served cfg now b c h =
    let dec = (decode_byte b.decoder c).0 in
    let s = record b.world.stats { kiss_rx = bump b.world.stats.kiss_rx } in
    let keep : (b' : Bridge)
        → b'.fds ≡ b.fds
        → b'.world.frames ≡ b.world.frames
        → b'.world.conf ≡ b.world.conf
        → b'.config_ok ≡ b.config_ok
        → Served b' =
      λ b' e f g k. record {
        fresh = record {
          frames_fresh = λ z. f ∙ h.fresh.frames_fresh (ap (λ (x : Fds). x.data_open) (sym e) ∙ z);
          conf_fresh = λ z. g ∙ h.fresh.conf_fresh (ap (λ (x : Fds). x.conf_open) (sym e) ∙ z);
          unconfigured = λ z. k ∙ h.fresh.unconfigured (ap (λ (x : Fds). x.conf_open) (sym e) ∙ z);
          decoder_fresh =
              λ z. absurd (let on = ap (λ (x : Fds). is_connected x.client) e ∙ h.served in cc);
          params_fresh =
              λ z. absurd (let on = ap (λ (x : Fds). is_connected x.client) e ∙ h.served in cc);
        };
        served = ap (λ (x : Fds). is_connected x.client) e ∙ h.served;
      } in
    elim (decode_byte b.decoder c).1
      as (λ o. Served (elim o as (λ _. Bridge) [
        | Kiss.Outcome.pending ↦ record b { decoder = dec }
        | Kiss.Outcome.dropped e ↦ record b {
          decoder = dec;
          world = record b.world {
            stats = record b.world.stats { kiss_drop = bump b.world.stats.kiss_drop };
          };
        }
        | Kiss.Outcome.complete f ↦
            let (params, r) = handle_frame cfg now b.params s b.queue f in
            react r.result (record b {
              decoder = dec;
              world = record b.world { stats = r.stats };
              queue = r.queue;
              params = params;
            })
      ])) [
        | Kiss.Outcome.pending ↦ keep _ refl refl refl refl
        | Kiss.Outcome.dropped e ↦ keep _ refl refl refl refl
        | Kiss.Outcome.complete f ↦
            let (params, r) = handle_frame cfg now b.params s b.queue f in
            react-Served r.result _ (keep _ refl refl refl refl)
      ]

pub client_bytes-Served :
    (cfg : Config) (now : ℕ) (bytes : Bytes) (b : Bridge)
    → Served b
    → Served (client_bytes cfg now b bytes)
client_bytes-Served cfg now [] b h = h
client_bytes-Served cfg now (c ∷ bytes) b h =
    client_bytes-Served cfg now bytes (client_byte cfg now b c) (client_byte-Served cfg now b c h)

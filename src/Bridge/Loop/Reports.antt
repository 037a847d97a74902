-- ===== src/Bridge/Loop/Reports.antt =====
-- bridge.c: what select reports is handled so that the state stays fresh.
use loraham_kiss_tnc.Base.{
  ℕ, ◌≡◌, refl, ◌∙◌, ap, sym, Bool, true, false, not, Option, none, some, if_intro, ok, fail,
  OnSome, and_then-OnSome, and_then-OnSome_all,
}
use loraham_kiss_tnc.Bridge.Egress.{Reply, handle_framed_chunk}
use loraham_kiss_tnc.Bridge.Links.{Bridge, lose_data, lose_conf, should_disconnect_client}
use loraham_kiss_tnc.Bridge.Loop.{
  Accept, again, accept_failed, unusable, accepted, Read, interrupted, broken, closed, received,
  Ready, Select, select_interrupted, select_failed, timed_out, ready, collect, Next, go_on, skip,
  on_listen, count_disconnect, on_client, with_conf, after_chunk, on_data, if_open, is_connected,
  handle_daemon, handle_client, handle_ready, handle_select,
}
use loraham_kiss_tnc.Bridge.Shared.{Config}
use loraham_kiss_tnc.Bridge.Wait.{Available, read_available}
use loraham_kiss_tnc.Loraham.Framed.{FramedState}
use loraham_kiss_tnc.Bridge.Loop.Fresh.{
  Fresh, lose_data-Fresh, lose_conf-Fresh, lose_client-Fresh, reconnect-Fresh, client_bytes-Served,
}

abbrev NextFresh : Next → Type 0
NextFresh (go_on b) = Fresh b
NextFresh (skip b) = Fresh b

on_listen-NextFresh : (b : Bridge) (o : Option Accept) → Fresh b → NextFresh (on_listen b o)
on_listen-NextFresh b none h = h
on_listen-NextFresh b (some again) h = h
on_listen-NextFresh b (some accept_failed) h = h
on_listen-NextFresh b (some unusable) h = h
on_listen-NextFresh b (some (accepted client)) h = record {
  frames_fresh = h.frames_fresh;
  conf_fresh = h.conf_fresh;
  unconfigured = h.unconfigured;
  decoder_fresh = λ _. refl;
  params_fresh = λ _. refl;
}

count_disconnect-Fresh : (b : Bridge) → Fresh b → Fresh (count_disconnect b)
count_disconnect-Fresh b h = record {
  frames_fresh = h.frames_fresh;
  conf_fresh = h.conf_fresh;
  unconfigured = h.unconfigured;
  decoder_fresh = h.decoder_fresh;
  params_fresh = h.params_fresh;
}

on_client-NextFresh :
    (cfg : Config) (now : ℕ) (b : Bridge) (o : Option Read)
    → Fresh b
    → ((r : Read) → o ≡ some r → is_connected b.fds.client ≡ true)
    → NextFresh (on_client cfg now b o)
on_client-NextFresh cfg now b none h on = h
on_client-NextFresh cfg now b (some interrupted) h on = h
on_client-NextFresh cfg now b (some broken) h on = lose_client-Fresh b h
on_client-NextFresh cfg now b (some closed) h on =
    lose_client-Fresh (count_disconnect b) (count_disconnect-Fresh b h)
on_client-NextFresh cfg now b (some (received bytes)) h on =
    (client_bytes-Served cfg now bytes b
      (record { fresh = h; served = on (received bytes) refl })).fresh

with_conf-Fresh :
    (b : Bridge) (o : Option Available)
    → Fresh b
    → ((a : Available) → o ≡ some a → b.fds.conf_open ≡ true)
    → Fresh (with_conf b o)
with_conf-Fresh b none h on = h
with_conf-Fresh b (some a) h on =
    let (st, r) = read_available b.world.conf a in
    let joined = on a refl in
    let b' : Bridge = record b { world = record b.world { conf = st } } in
    let h' : Fresh b' = record {
      frames_fresh = h.frames_fresh;
      conf_fresh = λ z. absurd cc;
      unconfigured = λ z. absurd cc;
      decoder_fresh = h.decoder_fresh;
      params_fresh = h.params_fresh;
    } in
    elim r as (λ r. Fresh (elim r as (λ _. Bridge) [ ok u ↦ collect b' | fail e ↦ lose_conf b' ])) [
      | ok u ↦ record {
        frames_fresh = h'.frames_fresh;
        conf_fresh = h'.conf_fresh;
        unconfigured = h'.unconfigured;
        decoder_fresh = h'.decoder_fresh;
        params_fresh = h'.params_fresh;
      }
      | fail e ↦ lose_conf-Fresh b' h'
    ]

after_chunk-Fresh :
    (b : Bridge) (x : FramedState × Reply)
    → Fresh b
    → b.fds.data_open ≡ true
    → Fresh (after_chunk b x)
after_chunk-Fresh b (st, r) h joined =
    let b' : Bridge = record b {
      world = record b.world { frames = st; stats = r.stats; sent = r.sent };
    } in
    let h' : Fresh b' = record {
      frames_fresh = λ z. absurd cc;
      conf_fresh = h.conf_fresh;
      unconfigured = h.unconfigured;
      decoder_fresh = h.decoder_fresh;
      params_fresh = h.params_fresh;
    } in
    if_intro Fresh (should_disconnect_client r.result) (λ _. lose_client-Fresh b' h')
      (λ _.
        elim r.result
          as (λ k. Fresh (elim k as (λ _. Bridge) [ ok u ↦ b' | fail e ↦ lose_data b' ])) [
            | ok u ↦ h'
            | fail e ↦ lose_data-Fresh b' h'
          ])

on_data-Fresh :
    (fuel : ℕ) (b : Bridge) (o : Option Read)
    → Fresh b
    → ((r : Read) → o ≡ some r → b.fds.data_open ≡ true)
    → OnSome Fresh (on_data fuel b o)
on_data-Fresh fuel b none h on = h
on_data-Fresh fuel b (some interrupted) h on = h
on_data-Fresh fuel b (some broken) h on = lose_data-Fresh b h
on_data-Fresh fuel b (some closed) h on = lose_data-Fresh b h
on_data-Fresh fuel b (some (received bytes)) h on =
    and_then-OnSome_all Fresh
      (handle_framed_chunk fuel b.fds.client b.world.stats b.world.sent b.world.frames bytes)
      (λ r. some (after_chunk b r)) (λ r. after_chunk-Fresh b r h (on (received bytes) refl))

-- What is reported of a descriptor is reported of one that is connected.
if_open-some :
    {A : Type 0} (connected : Bool) (o : Option A) (a : A)
    → if_open connected o ≡ some a
    → connected ≡ true
if_open-some true o a e = refl
if_open-some false o a e = absurd cc

handle_daemon-Fresh :
    (fuel : ℕ) (r : Ready) (n : Next) → NextFresh n → OnSome Fresh (handle_daemon fuel r n)
handle_daemon-Fresh fuel r (skip b) h = h
handle_daemon-Fresh fuel r (go_on b) h =
    let b' = with_conf b (if_open b.fds.conf_open r.on_conf) in
    on_data-Fresh fuel b' (if_open b'.fds.data_open r.on_data)
      (with_conf-Fresh b (if_open b.fds.conf_open r.on_conf) h
        (if_open-some b.fds.conf_open r.on_conf))
      (if_open-some b'.fds.data_open r.on_data)

-- A client that was connected when select was called is still there behind the accept.
handle_client-Fresh :
    (cfg : Config) (now fuel : ℕ) (connected : Bool) (r : Ready) (n : Next)
    → NextFresh n
    → ((b : Bridge) → n ≡ go_on b → connected ≡ true → is_connected b.fds.client ≡ true)
    → OnSome Fresh (handle_client cfg now fuel connected r n)
handle_client-Fresh cfg now fuel connected r (skip b) h on = h
handle_client-Fresh cfg now fuel connected r (go_on b) h on =
    handle_daemon-Fresh fuel r (on_client cfg now b (if_open connected r.on_client)) (
      on_client-NextFresh cfg now b (if_open connected r.on_client) h
        (λ x e. on b refl (if_open-some connected r.on_client x e)))

bridge_of : Next → Bridge
bridge_of (go_on b) = b
bridge_of (skip b) = b

still_served :
    (b b' : Bridge) (connected : Bool) (o : Option Accept)
    → is_connected b.fds.client ≡ connected
    → on_listen b (if_open (not connected) o) ≡ go_on b'
    → connected ≡ true
    → is_connected b'.fds.client ≡ true
unfolding bridge_of
still_served b b' true o e h on =
    ap (λ (n : Next). is_connected (bridge_of n).fds.client) (sym h) ∙ e
still_served b b' false o e h on = absurd cc

handle_ready-Fresh :
    (cfg : Config) (now fuel : ℕ) (b : Bridge) (r : Ready)
    → Fresh b
    → OnSome Fresh (handle_ready cfg now fuel b r)
unfolding handle_ready
handle_ready-Fresh cfg now fuel b r h =
    let connected = is_connected b.fds.client in
    handle_client-Fresh cfg now fuel connected r (on_listen b (if_open (not connected) r.on_listen))
      (on_listen-NextFresh b (if_open (not connected) r.on_listen) h)
      (λ b' e on. still_served b b' connected r.on_listen refl e on)

abbrev pub GoesOnFresh : Bridge × Bool → Type 0
GoesOnFresh x = Fresh x.0

pub handle_select-Fresh :
    (cfg : Config) (now fuel : ℕ) (b : Bridge) (s : Select)
    → Fresh b
    → OnSome GoesOnFresh (handle_select cfg now fuel b s)
unfolding handle_select
handle_select-Fresh cfg now fuel b select_interrupted h = h
handle_select-Fresh cfg now fuel b select_failed h = h
handle_select-Fresh cfg now fuel b (timed_out conf_up data_up takes) h =
    reconnect-Fresh conf_up data_up takes b h
handle_select-Fresh cfg now fuel b (ready r) h =
    and_then-OnSome Fresh GoesOnFresh (handle_ready cfg now fuel b r) (λ b'. some (b', true))
      (handle_ready-Fresh cfg now fuel b r h) (λ b' k. k)

-- ===== src/Bridge/Links.antt =====
-- bridge_loraham.c, bridge.c: what the bridge keeps between two rounds of its loop, and what becomes of it
-- when one of its three connections is lost or made.
use loraham_kiss_tnc.Base.{
  ℕ, Bool, true, false, none, if◌then◌else◌, err_tx_socket, err_client_socket, err_conf_socket,
  err_tx_result, Result, ok, fail,
}
use loraham_kiss_tnc.Bridge.Conf.{ConfState, conf_state_init}
use loraham_kiss_tnc.Bridge.Conf.Cad.{CadStats}
use loraham_kiss_tnc.Bridge.Radio.{World}
use loraham_kiss_tnc.Bridge.Shared.{bump}
use loraham_kiss_tnc.Bridge.Transmit.{Fds}
use loraham_kiss_tnc.Bridge.TxQueue.{TxQueue}
use loraham_kiss_tnc.Kiss.{Decoder, Params, decoder_init, params_init}
use loraham_kiss_tnc.Loraham.Framed.{state_init}

pub record Bridge : Type 0 where
  pub world : World
  pub fds : Fds
  pub config_ok : Bool
  pub decoder : Decoder
  pub params : Params
  pub queue : TxQueue
  pub next_stats_ms : ℕ
  pub cad : CadStats

abbrev pub should_reconnect_data : Result (Unit {0}) → Bool
should_reconnect_data (fail err_tx_socket) = true
should_reconnect_data (fail err_tx_result) = true
should_reconnect_data r = false

abbrev pub should_reconnect_conf : Result (Unit {0}) → Bool
should_reconnect_conf (fail err_conf_socket) = true
should_reconnect_conf r = false

abbrev pub should_disconnect_client : Result (Unit {0}) → Bool
should_disconnect_client (fail err_client_socket) = true
should_disconnect_client r = false

abbrev pub count_reconnect : World → World
count_reconnect w = record w {
  stats = record w.stats { socket_reconnects = bump w.stats.socket_reconnects };
}

-- bridge_loraham_disconnect_data_socket, with the reset that each of its callers makes.
unfoldable pub lose_data : Bridge → Bridge
lose_data b =
    let w = if b.fds.data_open then count_reconnect b.world else b.world in
    record b {
      fds = record b.fds { data_open = false };
      world = record w { frames = state_init };
      config_ok = false;
    }

-- bridge_loraham_disconnect_conf_socket, with the reset that each of its callers makes.
unfoldable pub lose_conf : Bridge → Bridge
lose_conf b =
    let w =
      if b.fds.conf_open
      then record (count_reconnect b.world) { conf = conf_state_init }
      else b.world in
    record b { fds = record b.fds { conf_open = false }; world = w; config_ok = false }

unfoldable pub lose_client : Bridge → Bridge
lose_client b = record b {
  fds = record b.fds { client = none };
  decoder = decoder_init;
  params = params_init;
}

-- The bridge's answer to a call's error.
unfoldable pub react : Result (Unit {0}) → Bridge → Bridge
unfolding lose_data lose_conf
react r b =
    if should_reconnect_data r
    then lose_data b
    else if should_reconnect_conf r
    then lose_conf b
    else b

unfoldable pub react_drain : Result (Unit {0}) → Bridge → Bridge
unfolding react lose_client
react_drain r b = if should_disconnect_client r then lose_client b else react r b

-- The three lines of the initial configuration, as far as the socket takes them. They are no part of the trace
-- of a transmission.
pub record Takes : Type 0 where
  pub config_line : Bool
  pub txresult_line : Bool
  pub status_line : Bool

abbrev pub without_status : ConfState → ConfState
without_status st = record st {
  flags = record st.flags { have_status = false; txresult_known = false; txresult_enabled = false };
}

unfoldable pub send_initial_config : Bool → Takes → ConfState → ConfState × Result (Unit {0})
send_initial_config conf_open takes st =
    if conf_open
    then (
      without_status st,
      if takes.config_line
          then if takes.txresult_line
            then if takes.status_line then ok tt else fail err_conf_socket
            else fail err_conf_socket
          else fail err_conf_socket,
    )
    else (st, fail err_conf_socket)

abbrev pub succeeded : Result (Unit {0}) → Bool
succeeded (ok u) = true
succeeded (fail e) = false

-- The call from the loop, which keeps whether it succeeded.
abbrev pub configure : Takes → Bridge → Bridge
configure takes b =
    let (st, r) = send_initial_config b.fds.conf_open takes b.world.conf in
    record b { world = record b.world { conf = st }; config_ok = succeeded r }

abbrev pub connect_conf : Bool → Bridge → Bridge
connect_conf connected b =
    if connected
    then record b {
      fds = record b.fds { conf_open = true };
      world = record b.world { conf = conf_state_init };
    }
    else b

abbrev pub connect_data : Bool → Takes → Bridge → Bridge
connect_data connected takes b =
    if connected
    then configure takes (record b {
      fds = record b.fds { data_open = true };
      world = record (count_reconnect b.world) { frames = state_init };
    })
    else b

-- When select has timed out: what is missing is tried again, one thing a round.
unfoldable pub reconnect : Bool → Bool → Takes → Bridge → Bridge
unfolding send_initial_config
reconnect conf_up data_up takes b =
    if b.fds.conf_open
    then if b.fds.data_open
      then if b.config_ok then b else configure takes b
      else connect_data data_up takes b
    else connect_conf conf_up b

-- The start of lhkt_bridge_run: the CONF socket with its configuration, then the DATA socket.
unfoldable pub start : Bool → Bool → Takes → World → CadStats → TxQueue → Bridge
unfolding send_initial_config
start conf_up data_up takes w cad q =
    let (st, r) = send_initial_config conf_up takes conf_state_init in
    record {
      world = record w { conf = st; frames = state_init };
      fds = record { conf_open = conf_up; data_open = data_up; client = none };
      config_ok = succeeded r;
      decoder = decoder_init;
      params = params_init;
      queue = q;
      next_stats_ms = 0;
      cad = cad;
    }

-- ===== src/Bridge/Ingress.antt =====
-- bridge_kiss.c: from a KISS frame of the client to the TX queue.
pub mod Delivery
use loraham_kiss_tnc.Base.{
  ℕ, Bool, not, ◌==◌, if◌then◌else◌, Bytes, Code, err_long, err_unsupported, Result, ok, fail,
}
use loraham_kiss_tnc.Ax25.{Frame}
use loraham_kiss_tnc.Ax25.Codec.{decode_ui}
use loraham_kiss_tnc.Bridge.Shared.{Config, Stats, bump}
use loraham_kiss_tnc.Bridge.TxQueue.{TxQueue, queue_push}
use loraham_kiss_tnc.Kiss
use loraham_kiss_tnc.Kiss.{Params, cmd_data, handle_command}
use loraham_kiss_tnc.Loraham.Framed.{tx_max}
use loraham_kiss_tnc.Loraham.Packet.{build_aprs_packet}
use loraham_kiss_tnc.Tnc2.{max_line, format_line}

-- What a call leaves behind, and its result.
pub record Reply : Type 0 where
  pub stats : Stats
  pub queue : TxQueue
  pub result : Result (Unit {0})

abbrev pub is_long : Code → Bool
is_long err_long = Bool.true
is_long _ = Bool.false

abbrev pub drop_packet : Stats → Code → Stats
drop_packet s e =
    if is_long e
    then record s { loraham_drop = bump s.loraham_drop; tx_drop_oversize = bump s.tx_drop_oversize }
    else record s { loraham_drop = bump s.loraham_drop }

-- The last step: queue the packet, if the bridge transmits at all.
unfoldable pub enqueue : Config → ℕ → Stats → TxQueue → Bytes → Reply
enqueue cfg now s q packet =
    if cfg.rx_only
    then record { stats = s; queue = q; result = ok tt }
    else elim (queue_push q cfg packet now) [
      | ok q' ↦ record { stats = s; queue = q'; result = ok tt }
      | fail e ↦ record {
        stats = record s { loraham_drop = bump s.loraham_drop };
        queue = q;
        result = fail e;
      }
    ]

-- Each stage counts what it passes on and what it drops.
unfoldable pub send_line : Config → ℕ → Stats → TxQueue → Bytes → Reply
unfolding enqueue
send_line cfg now s q tnc2 = elim (build_aprs_packet tnc2 tx_max) [
  | ok packet ↦ enqueue cfg now s q packet
  | fail e ↦ record { stats = drop_packet s e; queue = q; result = fail e }
]

unfoldable pub send_ui : Config → ℕ → Stats → TxQueue → Frame → Reply
unfolding send_line
send_ui cfg now s q ax25 = elim (format_line ax25 max_line) [
  | ok tnc2 ↦ send_line cfg now (record s { tnc2_tx = bump s.tnc2_tx }) q tnc2
  | fail e ↦ record {
    stats = record s { tnc2_drop = bump s.tnc2_drop };
    queue = q;
    result = fail e;
  }
]

unfoldable pub handle_data_frame : Config → ℕ → Stats → TxQueue → Bytes → Reply
unfolding send_ui
handle_data_frame cfg now s q bytes = elim (decode_ui bytes) [
  | ok ax25 ↦ send_ui cfg now (record s { ax25_rx = bump s.ax25_rx }) q ax25
  | fail e ↦ record {
    stats = record s { ax25_drop = bump s.ax25_drop };
    queue = q;
    result = fail e;
  }
]

-- The KISS parameters that the call leaves, and the rest of its effect.
unfoldable pub handle_frame : Config → ℕ → Params → Stats → TxQueue → Kiss.Frame → Params × Reply
unfolding handle_data_frame
handle_frame cfg now params s q f = (
  handle_command params f,
  if f.command == cmd_data
      then if not (f.port == 0)
        then record {
          stats = record s { kiss_drop = bump s.kiss_drop };
          queue = q;
          result = fail err_unsupported;
        }
        else handle_data_frame cfg now s q f.payload
      else record { stats = s; queue = q; result = ok tt },
)

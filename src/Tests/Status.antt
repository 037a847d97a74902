-- ===== src/Tests/Status.antt =====
-- bridge_conf.c at fixed inputs.
use loraham_kiss_tnc.Base.{
  ◌+◌, ◌-◌, ◌%◌, ◌^◌, Lacks, ◌≡◌, refl, true, false, [], ◌∷◌, ◌++◌, Bytes, codes, cut, arith,
}
use loraham_kiss_tnc.Bridge.Conf.{
  Flags, flags_init, conf_state_init, txresult_on, handle_line, feed_byte, feed,
}
use loraham_kiss_tnc.Bridge.Conf.Cad.{CadStats, collect_cad_stats, collect_cad_stats_counts}
use loraham_kiss_tnc.Bridge.Conf.Counts
use loraham_kiss_tnc.Bridge.Conf.Counts.{feed-IsValid}
use loraham_kiss_tnc.Bridge.Conf.Lines.{take_lines, feed_reads, feed_reads-lines_text}

abbrev status : Bytes
status = codes "STATUS RADIO=READY TX=0 CAD=1 TXRESULT=1"

status_handled : handle_line flags_init status ≡ record flags_init {
  radio_ready = true;
  have_status = true;
  cad_busy = true;
  txresult_known = true;
  txresult_enabled = true;
}
unfolding handle_line
status_handled = refl

-- A value that is neither 1 nor 0 is no event.
other_value : handle_line flags_init (codes "TX=2") ≡ flags_init
unfolding handle_line
other_value = refl

busy_then_idle : txresult_on (feed conf_state_init (status ++ codes "\r\nTX=1\nTX=0\n")) ≡ true
unfolding feed feed_byte handle_line cut
busy_then_idle = refl

event-Lacks : Lacks b'\n' (codes "TX=1")
event-Lacks = ((λ e. cc), ((λ e. cc), ((λ e. cc), ((λ e. cc), tt))))

part-Lacks : Lacks b'\n' (codes "TX")
part-Lacks = ((λ e. cc), ((λ e. cc), tt))

feed_reads-lines_text_example :
    feed_reads conf_state_init (codes "TX" ∷ codes "=1\nT" ∷ codes "X\n" ∷ []) ≡ record {
      flags = take_lines flags_init (codes "TX=1" ∷ codes "TX" ∷ []);
      line = [];
      discard = false;
    }
feed_reads-lines_text_example =
    feed_reads-lines_text flags_init (codes "TX=1" ∷ codes "TX" ∷ [])
      (codes "TX" ∷ codes "=1\nT" ∷ codes "X\n" ∷ []) (event-Lacks, (part-Lacks, tt)) refl

conf_state_init-IsValid : Counts.IsValid conf_state_init
conf_state_init-IsValid = record {
  counts = record { tx_sum = refl; cad_sum = refl };
  line_lt = omega arith;
}

feed-IsValid_example : Counts.IsValid (feed conf_state_init status)
feed-IsValid_example = feed-IsValid conf_state_init status conf_state_init-IsValid

abbrev counted : CadStats
counted = record {
  cad_busy_events = 3;
  cad_idle_events = 2;
  cad_current_busy = false;
  last_busy_seq = 1;
  last_idle_seq = 9;
}

abbrev seen : Flags
seen = record flags_init { cad_busy = true; cad_seq = 9; cad_busy_seq = 5; cad_idle_seq = 4 }

collect_cad_stats_counts_example :
    let s' = collect_cad_stats seen counted in
    (s'.cad_busy_events ≡ (3 + (5 - 1)) % 2 ^ 64)
    × (s'.cad_idle_events ≡ (2 + (4 - 9)) % 2 ^ 64)
    × (s'.last_busy_seq ≡ 5)
    × (s'.last_idle_seq ≡ 4)
collect_cad_stats_counts_example = collect_cad_stats_counts seen counted (omega arith) (omega arith)

-- ===== src/Bridge/Ingress/Delivery.antt =====
-- bridge_kiss.c: a frame of the client on its way to the queue.
use loraham_kiss_tnc.Base.{
  subst, sym, ℕ, ◌+◌, ◌≤◌, ◌<◌, ◌≡◌, ◌≢◌, refl, true, false, not, [], ◌∷◌, ◌++◌, ◌==◌, if_intro,
  inl, inr, ◌⊎◌, Bytes, length, Code, ok, fail, Result-cases, arith,
}
use loraham_kiss_tnc.Ax25.{Frame}
use loraham_kiss_tnc.Ax25.Codec.{decode_ui}
use loraham_kiss_tnc.Bridge.Shared.{Config, Stats}
use loraham_kiss_tnc.Bridge.TxQueue.{TxQueue, queue_limit, new_item}
use loraham_kiss_tnc.Bridge.TxQueue.Fifo.{IsValid, contents, Pushed, queue_push_refines}
use loraham_kiss_tnc.Bridge.Ingress.{
  Reply, enqueue, send_line, send_ui, handle_data_frame, handle_frame,
}
use loraham_kiss_tnc.Kiss
use loraham_kiss_tnc.Kiss.{Params, cmd_data}
use loraham_kiss_tnc.Loraham.Framed.{tx_max}
use loraham_kiss_tnc.Loraham.Packet.{hdr, build_aprs_packet}
use loraham_kiss_tnc.Tnc2.{max_line, format_line}
use loraham_kiss_tnc.Tnc2.Text.{IsPrintable, line_text, format_line-line_text}

-- What a client's frame may do: leave the queue as it is, which with the result ok is only for a frame
-- that carries no data or a bridge that does not transmit; or queue one packet, the frame's line.
pub data Effect (cfg : Config) (now : ℕ) (q : TxQueue) (f : Kiss.Frame) (r : Reply) : Type 0 where
  unchanged :
      r.queue ≡ q
      → (r.result ≡ ok tt → (f.command ≢ cmd_data) ⊎ (cfg.rx_only ≡ true))
      → Effect cfg now q f r
  queued :
      (ax25 : Frame) (text : Bytes)
      → f.command ≡ cmd_data
      → f.port ≡ 0
      → cfg.rx_only ≡ false
      → decode_ui f.payload ≡ ok ax25
      → format_line ax25 max_line ≡ ok text
      → r.result ≡ ok tt
      → Pushed cfg q (new_item (hdr ++ text) now) r.queue
      → Effect cfg now q f r

-- A call that fails and leaves the queue.
refused :
    (cfg : Config) (now : ℕ) (q : TxQueue) (f : Kiss.Frame) (s : Stats) (e : Code)
    → Effect cfg now q f (record { stats = s; queue = q; result = fail e })
refused cfg now q f s e = unchanged refl (λ h. cc)

-- What a data frame carries, stage by stage.
record Carries (f : Kiss.Frame) (ax25 : Frame) (text : Bytes) : Type 0 where
  data_command : f.command ≡ cmd_data
  first_port : f.port ≡ 0
  decoded : decode_ui f.payload ≡ ok ax25
  formatted : format_line ax25 max_line ≡ ok text

build_aprs_packet-ok :
    (text packet : Bytes) → build_aprs_packet text tx_max ≡ ok packet → packet ≡ hdr ++ text
unfolding build_aprs_packet
build_aprs_packet-ok text packet h = ground arith

enqueue-Effect :
    (cfg : Config) (now : ℕ) (s : Stats) (q : TxQueue) (f : Kiss.Frame) (ax25 : Frame)
    (text : Bytes)
    → IsValid q
    → Carries f ax25 text
    → Effect cfg now q f (enqueue cfg now s q (hdr ++ text))
unfolding enqueue
enqueue-Effect cfg now s q f ax25 text v c =
    if_intro (Effect cfg now q f) cfg.rx_only (λ on. unchanged refl (λ _. inr on))
      (λ off. elim (queue_push_refines q cfg (hdr ++ text) now v) [
        | inl (e, bad) ↦ rw e (refused cfg now q f _ _)
        | inr (inl (e, full)) ↦ rw e (refused cfg now q f _ _)
        | inr (inr (q', e, p)) ↦
            rw e (queued ax25 text c.data_command c.first_port off c.decoded c.formatted refl p)
      ])

send_line-Effect :
    (cfg : Config) (now : ℕ) (s : Stats) (q : TxQueue) (f : Kiss.Frame) (ax25 : Frame)
    (text : Bytes)
    → IsValid q
    → Carries f ax25 text
    → Effect cfg now q f (send_line cfg now s q text)
unfolding send_line
send_line-Effect cfg now s q f ax25 text v c = elim (Result-cases (build_aprs_packet text tx_max)) [
  | inl (packet, e) ↦
      rw (e, send_line)
        (subst (λ x. Effect cfg now q f (enqueue cfg now s q x))
          (sym (build_aprs_packet-ok text packet e)) (enqueue-Effect cfg now s q f ax25 text v c))
  | inr (code, e) ↦ rw (e, send_line) (refused cfg now q f _ _)
]

send_ui-Effect :
    (cfg : Config) (now : ℕ) (s : Stats) (q : TxQueue) (f : Kiss.Frame) (ax25 : Frame)
    → IsValid q
    → f.command ≡ cmd_data
    → f.port ≡ 0
    → decode_ui f.payload ≡ ok ax25
    → Effect cfg now q f (send_ui cfg now s q ax25)
unfolding send_ui
send_ui-Effect cfg now s q f ax25 v data_command first_port decoded =
    elim (Result-cases (format_line ax25 max_line)) [
      | inl (text, e) ↦
          rw (e, send_ui)
            (send_line-Effect cfg now _ q f ax25 text v (record {
              data_command = data_command;
              first_port = first_port;
              decoded = decoded;
              formatted = e;
            }))
      | inr (code, e) ↦ rw (e, send_ui) (refused cfg now q f _ _)
    ]

handle_data_frame-Effect :
    (cfg : Config) (now : ℕ) (s : Stats) (q : TxQueue) (f : Kiss.Frame)
    → IsValid q
    → f.command ≡ cmd_data
    → f.port ≡ 0
    → Effect cfg now q f (handle_data_frame cfg now s q f.payload)
unfolding handle_data_frame
handle_data_frame-Effect cfg now s q f v data_command first_port =
    elim (Result-cases (decode_ui f.payload)) [
      | inl (ax25, e) ↦
          rw (e, handle_data_frame) (send_ui-Effect cfg now _ q f ax25 v data_command first_port e)
      | inr (code, e) ↦ rw (e, handle_data_frame) (refused cfg now q f _ _)
    ]

-- With a valid queue, whatever frame a client sends, the waiting packets stay as they are or get exactly one more, which
-- is a data frame's on port 0, decoded as a UI frame, as its line behind the three header bytes, with
-- transmission allowed. No data frame is lost in silence: when the queue stays as it is, the call
-- fails, or the frame carries no data, or the bridge is one that only receives.
pub handle_frame-Effect :
    (cfg : Config) (now : ℕ) (params : Params) (s : Stats) (q : TxQueue) (f : Kiss.Frame)
    → IsValid q
    → Effect cfg now q f (handle_frame cfg now params s q f).1
unfolding handle_frame
handle_frame-Effect cfg now params s q f v =
    if_intro (Effect cfg now q f) (f.command == cmd_data)
      (λ is_data.
        if_intro (Effect cfg now q f) (not (f.port == 0)) (λ _. refused cfg now q f _ _)
          (λ port. handle_data_frame-Effect cfg now s q f v (ground arith) (ground arith)))
      (λ no_data. unchanged refl (λ _. inl (λ e. ground arith)))

enqueue_ok :
    (cfg : Config) (now : ℕ) (s : Stats) (q : TxQueue) (packet : Bytes)
    → IsValid q
    → cfg.rx_only ≡ false
    → 0 < length packet
    → length packet ≤ tx_max
    → length (contents q) < queue_limit cfg
    → ((enqueue cfg now s q packet).result ≡ ok tt)
      × Pushed cfg q (new_item packet now) (enqueue cfg now s q packet).queue
unfolding enqueue
enqueue_ok cfg now s q packet v off some_bytes fits room =
    if_intro (λ (r : Reply). (r.result ≡ ok tt) × Pushed cfg q (new_item packet now) r.queue)
      cfg.rx_only (λ on. absurd (cc))
      (λ _. elim (queue_push_refines q cfg packet now v) [
        | inl (e, inl bad) ↦ absurd (omega (arith, bad, some_bytes))
        | inl (e, inr bad) ↦ absurd (omega (arith, bad, fits))
        | inr (inl (e, full)) ↦ absurd (omega (arith, full, room))
        | inr (inr (q', e, p)) ↦ rw e (refl, p)
      ])

build_aprs_packet-hdr :
    (text : Bytes) → 3 + length text ≤ tx_max → build_aprs_packet text tx_max ≡ ok (hdr ++ text)
unfolding build_aprs_packet
build_aprs_packet-hdr text h = ground arith

-- A data frame that decodes to a printable UI frame, with a line of at most 252 characters, room in
-- a valid queue and transmission allowed: the call succeeds, and the only change to the waiting packets
-- is that the three header bytes and the frame's line stand behind them.
pub handle_data_frame_delivers :
    (cfg : Config) (now : ℕ) (s : Stats) (q : TxQueue) (bytes : Bytes) (f : Frame)
    → IsValid q
    → decode_ui bytes ≡ ok f
    → IsPrintable f
    → 3 + length (line_text f) ≤ tx_max
    → cfg.rx_only ≡ false
    → length (contents q) < queue_limit cfg
    → let r = handle_data_frame cfg now s q bytes in
      (r.result ≡ ok tt)
      × IsValid r.queue
      × (contents r.queue ≡ contents q ++ new_item (hdr ++ line_text f) now ∷ [])
unfolding handle_data_frame send_ui send_line
handle_data_frame_delivers cfg now s q bytes f v dec p fits off room =
    rw
      (
        dec,
        handle_data_frame,
        format_line-line_text f max_line p (omega (arith, fits)),
        send_ui,
        build_aprs_packet-hdr (line_text f) fits,
        send_line,
      )
      (let (e, k) =
          enqueue_ok cfg now _ q (hdr ++ line_text f) v off (omega arith) (omega (arith, fits))
            room in
        (e, k.valid, k.behind))

-- ===== src/Lib.antt =====
-- A verification library for the LoRaHAM KISS TNC bridge, a program that stands between APRS clients
-- that speak KISS over TCP and the LoRaHAM daemon, which drives a LoRa radio.
--
-- The program has two ways. From the client: bytes of KISS (kiss.c) become frames; a data frame holds
-- an AX.25 UI frame (ax25.c), which is printed as a TNC2 line (tnc2.c); three header bytes before the
-- line make a LoRa-APRS packet (loraham_sock.c), which waits in a ring (bridge_tx_queue.c) until the
-- transmitter is free; bridge_kiss.c joins these. To the client: the daemon's stream of framed messages
-- (loraham_sock.c) is decoded; a scanner finds the lines in a received packet; bridge_rx.c parses each
-- line, encodes it as AX.25 and KISS, and writes it to the client. A third stream of text lines
-- (bridge_conf.c) tells whether the transmitter is busy. bridge_loraham.c sends the packets that wait,
-- with the radio on the transmit frequency for as long as it takes, and waits for the daemon's answer;
-- bridge.c is the loop that joins all this. The configuration comes from defaults, a file (config.c)
-- and the command line (cli.c); the network whose addresses may connect is read and tested in
-- loraham_kiss_tnc.c.
--
-- Files and what they model:
--   Base              bytes, error codes (loraham_kiss_tnc.h), text functions of the C library
--   Kiss              kiss.c, kiss.h: kiss_decode_byte, kiss_handle_command, kiss_encode_data_frame
--   Kiss/Wire         what the encoder writes; Kiss/Stream: the decoder over a stream
--   Ax25              ax25.h; Ax25/Address: ax25_addr_parse, ax25_addr_format; Ax25/Codec:
--                     ax25_encode_ui, ax25_decode_ui; Ax25/Valid, Ax25/Fields, Ax25/RoundTrip,
--                     Ax25/AddressText
--   Tnc2              tnc2.c: tnc2_parse_line, tnc2_format_line; Tnc2/Text, Tnc2/Valid, Tnc2/RoundTrip
--   Loraham/Framed    loraham_sock.c: loraham_framed_decode_byte, loraham_decode_tx_result,
--                     loraham_send_framed_tx_packet; Loraham/Framed/Stream and
--                     Loraham/Framed/Outcomes
--   Loraham/Packet    loraham_build_aprs_packet; Loraham/Scanner: loraham_extract_tnc2, with
--                     Loraham/Scanner/Packets and Loraham/Scanner/Bounds
--   Bridge/Shared     loraham_kiss_tnc.h: lhkt_config_t and lhkt_stats_t
--   Bridge/TxQueue    bridge_tx_queue.c; Bridge/TxQueue/Fifo (the ring against a list) and
--                     Bridge/TxQueue/Policy (bridge_tx_head_decision)
--   Bridge/Ingress    bridge_kiss.c; Bridge/Ingress/Delivery
--   Bridge/Egress     bridge_rx.c; Bridge/Egress/Rounds, Bridge/Egress/Frames, Bridge/Egress/Delivery
--   Bridge/Conf       bridge_conf.c: bridge_conf_feed and bridge_conf_handle_line; Bridge/Conf/Lines,
--                     Bridge/Conf/Counts; Bridge/Conf/Cad: bridge_conf_collect_cad_stats
--   Bridge/Radio      bridge_loraham.c: bridge_loraham_send_config_freq and
--                     bridge_loraham_restore_rx_freq, with bridge_runtime_sleep_ms; Bridge/Radio/Restore
--   Bridge/Wait       bridge_loraham_wait_tx_result, bridge_loraham_wait_tx_complete, with
--                     bridge_conf_wait_read and bridge_conf_read_available; Bridge/Wait/Deadline,
--                     Bridge/Wait/Late
--   Bridge/Transmit   bridge_loraham_send_packet_with_client and
--                     bridge_loraham_tx_queue_drain_with_client; Bridge/Transmit/Actions, Airtime,
--                     Return, Packet, Head, Drain, Sends, Returns and
--                     Closed
--   Bridge/Links      what is lost and made with a connection: bridge_loraham_disconnect_data_socket,
--                     bridge_loraham_disconnect_conf_socket,
--                     bridge_loraham_send_initial_config_with_state, and the start of lhkt_bridge_run
--   Bridge/Loop       bridge.c: a round of lhkt_bridge_run; Bridge/Loop/Timeout, Bridge/Loop/Fresh,
--                     Bridge/Loop/Reports, Bridge/Loop/Rounds
--   Settings/Values   config.c, cli.c: the parsers of a value; Settings/Bind: loraham_kiss_tnc.c,
--                     lhkt_bind_apply, lhkt_ipv4_in_cidr, lhkt_config_defaults; Settings/Network
--   Settings/File     lhkt_config_parse_line, lhkt_config_load_file; Settings/Ranges,
--                     Settings/Kept, Settings/Load
--   Settings/Options  cli.c: lhkt_cli_apply; Settings/Options/Start
--   Rflog             rflog.c: lhkt_rflog_format_rx, lhkt_rflog_format_tx; Rflog/Holds, Rflog/Record
--   Tests             runs at fixed inputs and instances of the theorems
--
-- How the code is read. A buffer with its length is the list of the bytes stored in it, a C string the
-- list of its characters before the NUL. A byte is a number, and casts and shifts are written out as
-- `%` and `/`. A function that changes a struct returns the new one, a return code is a `Result` or an
-- outcome type of the function's own. Counters are 64-bit and wrap around. Decoders that take a byte at
-- a time are folded over lists of bytes, as their callers do.
--
-- Bounds and fuel. The path loops run on the places that are left in their arrays (8 repeaters, 10
-- addresses), as the C loops do. The drain loop of bridge_rx_handle_loraham_chunk is on fuel, and each
-- round but the first takes at least one pending byte, so fuel above the number of bytes is enough;
-- since a frame has at most 1024 payload bytes, 1025 is enough for a whole read.
--
-- The waits of bridge_loraham.c are given the rounds that their system calls answer, and end when one
-- of these sees the deadline; the drain makes at most as many rounds as packets wait, and one more. The
-- decoder of a configuration file runs on the file's bytes.
--
-- Parameters. Whether the client's socket takes a buffer is a function argument (`accepts`), and the
-- time of the clock is an argument. Whether the daemon's sockets take a line or a packet, and whether a
-- sleep runs to its end, are functions of what was done before (`Env`), so that no two answers are tied
-- to each other. What select and the reads behind it answer is the input of a round of the loop. The
-- readings of inet_pton and strtod, the answer of getopt_long, the file that a path names and what stat
-- says of a path are arguments too, and so are the texts of RSSI and SNR in the RF log. A frequency and the bandwidth, which are doubles, are numbers of
-- 10^-12 of their unit; the rounding of doubles is not modelled.
--
-- Not modelled: checks for null pointers, log output, the optional counters and states where no struct
-- is given, the connects, the accept and the write loops of the sockets, the check that a descriptor is
-- below FD_SETSIZE, the text of the daemon's configuration line, the file of the RF log and its
-- rollover, help and statistics texts, signals. Each of these is a system call, or is text for people, or rests on
-- the formatting of doubles.
pub mod Base
pub mod Kiss
pub mod Ax25
pub mod Tnc2
pub mod Loraham
pub mod Bridge
pub mod Settings
pub mod Rflog
mod Tests

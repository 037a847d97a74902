-- ===== src/Loraham.antt =====
-- loraham_sock.c, loraham_sock.h: the framed DATA protocol of the daemon, the LoRa-APRS packet, and
-- the scanner that finds such packets in the bytes received.
pub mod Framed
pub mod Packet
pub mod Scanner

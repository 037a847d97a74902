-- ===== src/Bridge.antt =====
-- The bridge: the TX queue, the way from the KISS client to the queue, and the way from the
-- daemon to the client.
pub mod Conf
pub mod Shared
pub mod TxQueue
pub mod Ingress
pub mod Egress
pub mod Radio
pub mod Wait
pub mod Transmit
pub mod Links
pub mod Loop

-- ===== src/Tests.antt =====
-- Runs of the modelled code at fixed inputs, and an instance of each theorem that has hypotheses.
mod Data
mod Codecs
mod Radio
mod Transmit
mod Receive
mod Status
mod Airtime
mod Setup
mod Loop
mod Log

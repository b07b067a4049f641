-- ===== src/Tests.antt =====
-- Runs of the code on small inputs, and the theorems at concrete inputs.
mod Bytes
mod Packets
mod Sessions
mod Queues
mod Methods

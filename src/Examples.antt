-- ===== src/Examples.antt =====
-- Runs of the model at concrete inputs.
pub mod Hosts
mod OfPacket
mod OfPrinting
mod OfConnection
mod OfListener
mod OfRingBuf
pub mod OfReading
mod OfLoop
mod OfConsumer
mod OfPoller
mod OfSockets

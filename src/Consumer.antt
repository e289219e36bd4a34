-- ===== src/Consumer.antt =====
-- src/SEDNL/EventConsumer.cpp, with include/SEDNL/{EventConsumer,Slot}.ipp: the slots for the
-- callbacks of a program, and the thread that hands the listener's events to them.
pub mod Slots
pub mod Consume
pub mod Calls
pub mod Handover
pub mod Unlinked
pub mod Events
pub mod Kept
pub mod Unclaimed
pub mod Thread
pub mod HandsOver
pub mod AllHanded
pub mod FromNetwork
pub mod Producers
pub mod OneProducer
pub mod ProducerCalls

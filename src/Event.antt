-- ===== src/Event.antt =====
-- src/SEDNL/Event.cpp with include/SEDNL/Event.{hpp,ipp}: a name bundled with a packet.
pub mod Pack

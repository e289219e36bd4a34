-- ===== src/RingBuf.antt =====
-- src/SEDNL/RingBuf.cpp with include/SEDNL/RingBuf.{hpp,ipp}: the bytes received on a connection, and
-- the events cut from them.
pub mod Buffer
pub mod Window
pub mod Put
pub mod Stretch
pub mod Pick
pub mod Ends
pub mod Leaves
pub mod Progress

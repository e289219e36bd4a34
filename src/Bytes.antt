-- ===== src/Bytes.antt =====
-- src/SEDNL/SocketHelp.hpp, lines 128-232: words in network order on a host of either byte order.
pub mod Host
pub mod Order
pub mod Wire
pub mod Range

-- ===== src/Sockets.antt =====
-- The sockets of servers and clients: src/SEDNL/SocketAddress.cpp, SocketHelp.hpp, TCPServer.cpp and
-- TCPClient.cpp, on Linux. What the system calls give is an argument.
pub mod Address
pub mod Connect
pub mod Descriptors
pub mod Locks
pub mod Relock

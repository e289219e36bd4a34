-- ===== src/Poller.antt =====
-- The backends of `Poller`: src/SEDNL/Poller_select.cpp and src/SEDNL/Poller_epoll.cpp, on Linux.
pub mod Select
pub mod SelectScan
pub mod SelectEvents
pub mod Epoll
pub mod EpollEvents

-- ===== src/Listener.antt =====
-- src/SEDNL/EventListener.cpp: what a listener attaches to, the consumers it wakes, and the queues of
-- events between them (include/SEDNL/ThreadHelp.ipp). A lock is taken to succeed.
pub mod Queue
pub mod Pushers
pub mod QueueBounds
pub mod Attach
pub mod Parents
pub mod Calls
pub mod Connections
pub mod Disconnect
pub mod Receive
pub mod Delivery
pub mod Picking
pub mod Reading
pub mod ReadingEnds
pub mod Links
pub mod Claims
pub mod LinkState
pub mod Collisions
pub mod Linked
pub mod Accept
pub mod Accepted
pub mod Running
pub mod Restart
pub mod Loop
pub mod Pieces
pub mod Come
pub mod Flow
pub mod Interleaved
pub mod Finish
pub mod HangUp

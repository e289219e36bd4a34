-- ===== src/Connection.antt =====
-- src/SEDNL/Connection.cpp: the data a user keeps with a connection, and sending. The lock is taken
-- to succeed.
pub mod UserData
pub mod UserView
pub mod Send
pub mod SendRounds
pub mod SendLoop
pub mod SendRuns

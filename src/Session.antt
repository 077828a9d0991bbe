-- ===== src/Session.antt =====
-- server/sessions.ts: class Session. What a session asks of the rest of the server (the callbacks
-- of SessionEvents, the writes to the database, the promises that it settles) is kept in order in
-- `effects`. The runner is a parameter, and so are randomUUID and Date.now.
pub mod Title
pub mod State
pub mod Steps
pub mod Operations
pub mod Drain
pub mod Keeps
pub mod History
pub mod Line
pub mod Pace
pub mod Fifo
pub mod Recovery
pub mod Alerts
pub mod Turns
pub mod Permissions
pub mod Balanced
pub mod Balance
pub mod Growth
pub mod Growing
pub mod Saved
pub mod Persistence
pub mod Store
pub mod Restart
pub mod Tests

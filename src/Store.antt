-- ===== src/Store.antt =====
-- The database that the services share (migrations/ and internal/models/), the outside world, and
-- the calls that go out to them. A row identifier is a string. A call that fails has no effect.
-- Row locks (`SELECT ... FOR UPDATE`) make a transaction one step here.
pub mod Rows
pub mod Action
pub mod Tables
pub mod History
pub mod Onward

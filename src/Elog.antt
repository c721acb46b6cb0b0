-- ===== src/Elog.antt =====
-- lib/eventlog: the event log of SMBIOS and of Chrome OS firmware. An entry is a view of the log's
-- bytes; `Entry` fills and verifies one, `Iterator` walks a log, `Manual` adds to and clears a log
-- through the platform's `fetch` and `write` callbacks.
pub mod Command
pub mod Entry
pub mod Iterator
pub mod Manual
pub mod Flash
pub mod Report
pub mod Smbios
pub mod Listing
mod Samples
mod Tests

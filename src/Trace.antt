-- ===== src/Trace.antt =====
-- trace/: the routing trace's records, and their parser.
pub mod Event
pub mod Json
pub mod Schema
pub mod Parity

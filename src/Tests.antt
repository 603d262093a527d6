-- ===== src/Tests.antt =====
-- The theorems at concrete inputs, and runs of the definitions on small examples.
mod Traces
mod Policies
mod Layouts
mod Shadows
mod Parsing
mod Parities
mod Prefetches
mod Curves
mod Temporals
mod Placements
mod Calibrations

-- ===== src/Examples.antt =====
-- Runs of the definitions at small inputs, and each theorem at an input that meets its hypotheses.
pub mod Bodies
pub mod Tables
pub mod Versions
pub mod Calendar
pub mod Selection
pub mod Weave
pub mod History
pub mod Locks
pub mod Headers
pub mod Removal

-- ===== src/Subject.antt =====
-- internal/subject: how a run shows that the worker's traffic took the path under test.
pub mod Evidence
pub mod Processes
pub mod Raw
pub mod Diagnostics
pub mod Managed
pub mod Samples
mod Tests

-- ===== src/Command.antt =====
-- cmd/inbound-bench/main.go: what the command makes of a configuration before it runs it, the jobs of a
-- matrix, and the loop that runs them. Files, flags, signals and clocks are left to the operating system.
pub mod Warmup
pub mod Jobs
pub mod Recovery
pub mod Loop

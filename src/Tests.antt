-- ===== src/Tests.antt =====
-- Concrete runs: for each theorem with hypotheses an input at which they hold.
pub mod Values
pub mod Texts
pub mod Tables
pub mod Freeze
pub mod Runs
pub mod Plans
pub mod Collector
pub mod Primitives
pub mod Symbols
pub mod Bundles
pub mod Allocation

-- ===== src/Strategy.antt =====
-- src/strategy: what the strategy keeps between two quotes.
pub mod ParamMath
pub mod Markout
pub mod Signals
pub mod LeadLag
pub mod Sweep
pub mod Allocator
mod Tests

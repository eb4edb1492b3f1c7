-- ===== src/Data.antt =====
-- src/data: the market data.
pub mod State
pub mod BookCache
pub mod OnlineStats
pub mod Lut
pub mod Samples
mod Tests

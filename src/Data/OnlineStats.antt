-- ===== src/Data/OnlineStats.antt =====
-- src/data/featurespace/online_stats.py: statistics that are updated value by value.
pub mod Drift
pub mod Quiet
pub mod Quantile
pub mod Markers
pub mod Marked
pub mod LeastSquares
pub mod Shapes
mod Tests

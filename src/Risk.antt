-- ===== src/Risk.antt =====
-- src/risk: the portfolio, the safe modes and the pre-trade limits.
pub mod Inventory
pub mod KillSwitch
pub mod Limits
mod Tests

-- ===== src/Execution.antt =====
-- src/execution: orders, fills, the order ledger, the router and the reconciler.
pub mod Lots
pub mod Intents
pub mod Orders
pub mod Slippage
pub mod Audit
pub mod SymbolLedger
pub mod Ledger
pub mod ShiftOrders
pub mod Router
pub mod Samples
pub mod Reconciler
mod Tests

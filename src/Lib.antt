-- ===== src/Lib.antt =====
-- Verification of the trading core: what is sent to the broker, what is written down about it, and
-- what stops it.
--
-- The program polls a SHIFT broker, lets a strategy set quote targets, compares the targets with the
-- working orders and sends the commands that result. The parts that are modelled, with the files of
-- the repository that they stand for:
--
-- - Prelude: Python's values as the model has them. A `dict` is an association list in insertion
--   order, an `int` that counts is a native natural, a signed one an integer of Prelude/Int, a
--   `float` an element of a type with the operations of Prelude/Float, about which nothing is
--   assumed but what a theorem names. `str.strip` and the like are the parameters of Prelude/Texts.
-- - Core/Spsc (src/core/concurrency/spsc.py): the ring buffer between two threads. Each method holds
--   the lock, so it is one step. Core/Spsc/Fifo is what a bounded FIFO does, Core/Spsc/Refinement
--   that the buffer is one. Core/Spsc/Waiting is `wait_pop`: what the clock shows and which calls run
--   during each wait is an argument.
-- - Execution/Lots, Intents, Orders, Audit, SymbolLedger, Slippage and Ledger
--   (src/execution/order_state.py, slippage.py): orders, audits and the order ledger. The ledger's
--   slots and its index by id share order objects, so these stand in a heap; an assignment to a field
--   is `modify_order`. Ledger/Store finds and registers orders, Live lists the live ones, Audits makes
--   audit records, Fills books execution reports, Archive folds old audits into totals, and Net has
--   the net position and its baseline. Conserved is the balance of the session's totals.
-- - Execution/ShiftOrders and Router (src/execution/shift_orders.py, order_router.py): a command is
--   checked, turned into an order of the broker's package and sent. The trader, the clock and the
--   id that a new broker order draws are the record `Trader` over a state of their own. An exception
--   of the trader is an answer `false`; one of the `build_` methods ends the call as `failed`.
-- - Execution/Reconciler (src/execution/reconciler.py): Decisions has what is commanded for a slot,
--   given its target and its order, with the writes to the order returned, Targets the loops over
--   levels and targets, Sync what is read from the broker, and Poll one poll with its health. The
--   broker is a record `Broker` over a state of its own; a call that raises answers `none`.
-- - Core/Session (src/core/session.py): connecting to the broker and subscribing to symbols. A call that
--   raises answers `none` or `false`; Ready, Errors and Recovers say what the repair of the session
--   promises. Core/SessionClock (src/core/session_clock.py) is the trading day.
-- - Data/State and BookCache (src/data/state.py, book_cache.py): the market of one symbol, what is read
--   from it, and its refresh from the broker without the program's own orders, which the order ledger
--   knows. Flow is the order flow between two books.
-- - Data/Lut and OnlineStats (src/data/featurespace/lut.py, online_stats.py): tables and statistics that
--   are updated value by value.
-- - Strategy/Markout, ParamMath, Signals and LeadLag (src/strategy/markout_tracker.py, param_math.py,
--   signals.py, lead_lag_graph.py): the fills whose markout is due later, read from the order ledger's
--   audits, the quote gate and widths, and the graph of which symbol leads which.
-- - Strategy/Sweep and Allocator (src/strategy/sweep_reversion.py, strategy_allocator.py): the ladder at
--   the short moving average, whose fills are read from the audits too, and the weights of the sleeves.
-- - Risk/Inventory, KillSwitch and Limits (src/risk/inventory.py, kill_switch.py, limits.py): the
--   broker's positions, the safe modes and the checks before a command is sent.
--
-- The router's limits hold the router's own order ledger, as src/execution/runtime.py wires them. The
-- loops run over lists, or over the number of items that are left, and are structural; no fuel is
-- used. An age in nanoseconds against a limit in milliseconds is compared as a sum of products, which
-- agrees with the quotient of the code while the limits are below 2 ^ 33 ms. Prices that are missing
-- are `none`.
--
-- Not modelled: the proxies that take a lock around the trader's calls; log events, which only report;
-- the strategy's parameters (src/strategy/params.py, param_observer.py) and its pricing pipeline; and
-- the application, which is wiring and I/O.
--
-- Concrete instances for the tests are in Execution/Samples and Data/Samples; the tests of a part are in its Tests
-- module.
pub mod Prelude
pub mod Core
pub mod Data
pub mod Execution
pub mod Risk
pub mod Strategy

-- ===== src/Lib.antt =====
-- The trading core of CM-Desk: the ledger's arithmetic, the order lifecycle, the risk engine with its
-- gate, the separation of the paper book from the live one, the decisions of the Chase strategy, the
-- scope of a flatten request, the intake of orders and of the broker's reports, the matching of paper
-- orders, the placement of orders with the broker, reconciliation, the figures of the portfolio, and the
-- comparison of rebalance previews.
--
-- The parts, and the files of the repository that they model:
--   Money (lib/trading/money.ts): amounts are whole numbers of 1/10000 of a rupee, `bigint` in the code and
--     ℤ here. `Result` stands for a function that may throw. Money.Decimal prints and reads them.
--   Types (lib/trading/types.ts): sides, provenances, and the book that a row belongs to.
--   Accounting (lib/trading/accounting.ts): Accounting.Fill is `applyFillToPosition`, one definition for each
--     branch and `dispatch_fill` for the ladder of tests; Accounting.Mark the marks and
--     `incrementalFillFromAverages`; Accounting.Rows the rows that are shown.
--   Order (lib/trading/stateMachine.ts, lib/trading/kiteMap.ts): the table of moves, and the status and
--     progress that a broker's report gives. Order.Lifecycle has the step relation of accepted moves.
--   Risk (lib/trading/riskEngine.ts, lib/trading/exitSafety.ts, lib/flattenNotice.ts,
--     lib/trading/riskGate.ts): Risk.Settings the limits, Risk.Role the role of an order, Risk.Evaluate the
--     checks of `evaluateOrder` in their order, Risk.Exit the book of a square-off and the rollover,
--     Risk.Gate the gate that assembles an intent and a context from rows and asks the engine.
--   Book (lib/trading/bookSplit.ts): the quantities of the two books, the size of a flatten, mode switches.
--   Chase (lib/chaseFill.ts): Chase.Cover the size of a cover and what a breach or the morning does,
--     Chase.Fill the status of the book, Chase.Orders what is read off the orders of Kite and the ledger,
--     Chase.Window whether candles touch a stop.
--   Paper (lib/trading/positionMatch.ts, lib/trading/paperExecution.ts): Paper.Match the position row that a
--     fill may update, Paper.Execution the desk's own matching of paper orders.
--   Ledger (lib/trading/ledger.ts): the store of fills, positions, trades and events; Ledger.Trades is
--     `syncTrade`, Ledger.Totals the figures that it closes a trade with, Ledger.Apply the transaction
--     `applyFillById`.
--   Intake (lib/trading/ledger.ts, lib/trading/orderPurpose.ts, lib/schema.ts): the desk, which is the store
--     with the orders and their events. Intake.Intent is `recordOrderIntent`, Intake.Status the operations
--     that move an order by its own status, Intake.Snapshot `applyBrokerOrderSnapshot` with `insertFill`,
--     Intake.Attributed `recordAttributedFill`.
--   Placement (lib/trading/brokerPlace.ts, lib/kiteUtils.ts, lib/kiteError.ts): whether a saved order is sent;
--     Placement.Send the order, the answers from outside and the decision, Placement.Place `placeOrder`.
--   Reconcile (lib/trading/strategyReconcile.ts): the gap between the broker and a strategy, and the trades
--     that it is booked from. Reconcile.Positions and Reconcile.Sync (lib/trading/reconcile.ts,
--     lib/trading/missingDayOrder.ts): `reconcileWithBroker`, which begins with Reconcile.Backfill
--     (lib/trading/migrateHistory.ts): `backfillFromTransactions`. Its calls of `markPositions` and
--     `snapshotPortfolio` at the end are left out.
--   Portfolio (lib/trading/portfolio.ts): `computePortfolio`, and Portfolio.Snapshots `snapshotPortfolio`, over
--     the rows of the ledger's positions.
--   Session: any of the calls of Ledger, Intake, Placement, Paper and Reconcile on one desk, one after another.
--   Scope (lib/flattenScope.ts, lib/chaseUniverse.ts): the scope that a request to flatten asks for.
--   Momentum (lib/momentum/rebalanceDiff.ts): the difference of two previews of a rebalance.
--   Prelude: Boolean tests, integers, lists and texts; Examples: concrete figures.
-- A report of the broker enters at Intake.Snapshot, a paper order at Paper.Execution, which makes such a
-- report of it. An order leaves at Placement, which asks the gate, records an intent, sends it and marks
-- what became of it; Reconcile takes in the broker's book. A fill passes Order.Kite (how much of it is
-- new), Accounting.Mark (at what price), Types (into which book), Accounting.Fill (what it leaves) and
-- Ledger.Apply (the rows that are written). An order passes Risk.Gate, which asks Risk.Evaluate; a flatten
-- is sized by Book and, for Chase, by Chase.Cover.
--
-- Functions keep the code's names in snake case; an object argument is a record, an optional field an
-- Option, a union of literals a data type. Every loop is structural recursion over its list. The
-- decimal digits of a number run on fuel, one above the number, and a quotient by ten is smaller each
-- time. `recordOrderIntent` calls itself with a new random name; the names are a list, and as many of
-- them as there are orders are enough. Quantities of shares are whole numbers, as `Number.isInteger`
-- asks where they are booked; where the code tests that, Quantity has a case for a number that is not
-- whole. Prices, lots and limits of the risk engine are JavaScript numbers: an abstract type with the
-- operations of Prelude.Double, of which no law is assumed. What `new Date` reads of a text is a parameter.
--
-- Not modelled: the texts of messages and log lines; the database, the queues and the broker's API, whose
-- answers are the rows that the definitions take; failures of queries other than those that the code
-- catches; case mapping outside ASCII; names of Object.prototype as strategy names. The audit
-- log and the log of decisions, signals and the momentum engine, whose rebalance previews alone are
-- compared here, are outside the model. Operations run one after another: conflicts between two that
-- overlap are not modelled, and of the failing statements only those of `insertFill` and
-- `backfillFromTransactions`, which the code goes on from. Orders are numbered where the code asks the
-- database for an identifier, and listed in the order of their creation. The raw reports, the metadata
-- and the amendment's message of an order are left out.
pub mod Prelude
pub mod Money
pub mod Types
pub mod Accounting
pub mod Order
pub mod Risk
pub mod Book
pub mod Chase
pub mod Intake
pub mod Ledger
pub mod Momentum
pub mod Paper
pub mod Placement
pub mod Portfolio
pub mod Reconcile
pub mod Scope
pub mod Session
pub mod Examples

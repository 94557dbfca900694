-- ===== src/Lib.antt =====
-- A verification library of the portfolio tracker's accounting: the services of api/app/services
-- that decide which numbers of the portfolio are shown and how far they can be trusted.
--
-- The parts and how they interact
--
-- Confidence is the order of the confidence states, which every part shares (CONFIDENCE_ORDER
-- and _max_confidence of api/app/services/accounting_capital.py).
--
-- Capital is calculate_capital_truth of the same file. Its caller hands in the current value,
-- the cashflows, decisions and issues that the other services have stored; it returns the
-- summary of the capital with its confidence, and hides what the evidence does not support.
-- Capital.Types has its records, Capital.Calendar what it uses of Python's datetime,
-- Capital.Threshold the grading of an amount against the portfolio (_threshold_state),
-- Capital.Impacts what lowers the confidence (_trusted_current_value_or_none, _decision_impacts,
-- _impact_for_issue), Capital.Summary the loop, the dates, the averages and the summary.
-- Capital.Totals, Capital.Scopes, Capital.Gravity, Capital.Visibility, Capital.Sensitive,
-- Capital.ReviewTask and Capital.Elapsed hold the proofs, Capital.Examples the runs.
--
-- Reconcile is reconcile_accounting_evidence of api/app/services/accounting_reconciliation.py:
-- from the movements of all sources it makes links between a withdrawal and the deposit it
-- became, classifications of withdrawals from the portfolio, and tasks for a person to resolve.
-- What it stores is what Capital reads as cashflows, decisions and issues. Reconcile.Types has
-- its records, Reconcile.Matching the tests on movements, Reconcile.Records the records it
-- makes, Reconcile.Run the loop, Reconcile.Persist what reconcile_and_persist_movements adds to
-- the tables, and Reconcile.Resolve how a decision closes a task. Reconcile.Persistence,
-- Reconcile.Lifecycle, Reconcile.Dedupe, Reconcile.Matched, Reconcile.Links and
-- Reconcile.Coverage hold the proofs, Reconcile.Examples and Reconcile.ResolveExamples the runs.
--
-- Distribution is api/app/services/accounting_distribution.py: the holdings' values by type of
-- asset, the reserve of cash, and whether percentages of the current value are shown.
-- Distribution.Types has its records, Distribution.Classes what a holding counts as,
-- Distribution.Tally the loop, Distribution.Summary the rest. Distribution.Totals and
-- Distribution.Visible hold the proofs, Distribution.Examples the runs.
--
-- History is api/app/services/accounting_history.py: the value at a time in the past, from the
-- anchors of its day or rebuilt from positions and prices; Performance reads its results.
-- History.Types has its records, History.Anchors the choice of anchors, History.Rebuild the
-- rebuilding, History.Resolve the value and what it lets be shown. History.Latest, History.Steps
-- and History.Complete hold the proofs, History.Examples the runs.
--
-- Review is api/app/services/accounting_review.py: a person's decision about one of the tasks.
-- An approval finds the task, answers a repeated request with the decision that was made, or
-- makes the decision's row, claims the evidence, and closes the task by Reconcile.Resolve.
-- Review.Types has the requests, the tables and the monad of outcomes, Review.Values what is
-- read of the evidence and the request, Review.Decisions the rows that a decision makes,
-- Review.Tables the rows that an approval reads and the claims on evidence, Review.Approve the
-- approval. A database that the migrations made has a trigger that claims the evidence of a
-- decision as its row is added; one made from the models alone has none. Both are modelled: the
-- field has_triggers of the surroundings tells which it is. Review.Approved, Review.Keyed,
-- Review.Replay, Review.Again, Review.Claimed, Review.Owned, Review.Refreshed, Review.Claims and
-- Review.Refinement hold the proofs, Review.Samples and Review.Examples the runs.
--
-- BinanceSync is the fetching of an account's history in api/app/services/binance_sync.py. Its
-- transactions are among the evidence of the reconciliation. BinanceSync.Json has the answers of
-- the exchange, BinanceSync.Windows the windows of an interval, BinanceSync.Pages the loops over
-- windows and pages. BinanceSync.Tiling, BinanceSync.Pagination, BinanceSync.Unique and
-- BinanceSync.History hold the proofs, BinanceSync.Examples the runs. A call of the exchange is
-- a function of the window and the position, which an error ends, and the normalizer of its rows
-- is a parameter; a window is in microseconds. The loops run on fuel: one more than the
-- microseconds of the interval for the windows, and one more than the rows of a window for its
-- pages, are enough, as the results say.
--
-- Scheduler is what api/app/services/scheduler_jobs.py puts in the queue: the times at which a
-- periodic job is due since the last one, and the key in the store that it then sets.
-- Scheduler.Due has the functions, Scheduler.Ascending the proofs, Scheduler.Examples the runs.
-- The queue is the list of the times that were put in it, oldest first.
--
-- CashLedger is api/app/services/xtb_cash_ledger.py: from the rows of the XTB account it
-- calculates the cash, and trusts it only if it understands every row and the broker's own
-- balance confirms it. CashLedger.Types has its records and sets of types, CashLedger.Rows what
-- is read of a row, CashLedger.Ledger the loop. CashLedger.Balance and CashLedger.Trust hold the
-- proofs, CashLedger.Examples the runs.
--
-- Statement is api/app/services/xtb_statement_reconciliation.py: the current value that a
-- statement of the broker shows, with the operations of its account handed to CashLedger.
-- Statement.Types has its records, Statement.Reconcile the functions, Statement.Trusted the
-- proofs and Statement.Examples the run.
--
-- Performance is api/app/services/accounting_performance.py: the gain of the last days between
-- two historical values, without the money that came in or went out. Performance.Types has its
-- records, Performance.Boundary the values at the ends of a period, Performance.Cashflows the
-- cashflows and issues in it, Performance.Period the period and the summary. Performance.Gain,
-- Performance.Totals, Performance.Tiling and Performance.Blocking hold the proofs,
-- Performance.Examples the runs.
--
-- Alerts is evaluate_alerts of api/app/services/alerts.py, with the rules and events of
-- api/app/db/models.py: Alerts.Evaluate has the loop over the rules, Alerts.Fired the proofs and
-- Alerts.Examples the run. It stands alone.
--
-- Prelude has the shared types, operators, lemmas and rules: Boolean equality, lists, integers
-- over the native numbers, decimals, text and Python's dict as a list of entries in the order of
-- insertion.
--
-- How the code is modelled
--
-- A Decimal is an integer number of units of 10^-16, computed exactly: the rounding of Python's
-- decimal context to 28 digits is left out. In CashLedger a quantity is in units of 10^-10 and a
-- price in units of 10^-6, the scales of their columns, so that their product is a Decimal. A
-- product with a literal such as 0.05 is kept exact in a smaller unit, and a quotient is kept as
-- a numerator and a denominator. A record that the code reads with a default for a missing
-- attribute is a record after the defaults; a default that is computed is `none` in the record.
-- A confidence state is one of the five that the database admits; on any other the code raises
-- KeyError, which is not modelled. Performance reads the state as a text, as the code does
-- there. In Capital all datetimes are of one time zone, and are a calendar date with the
-- microseconds of the day. In Reconcile a time is its wall clock with an optional offset, and in
-- Performance it is the number of microseconds. Case folding and stripping are those of ASCII.
-- The SHA-256 digest that names a task is the parameter `digest`, of which nothing is assumed;
-- the prices, the answers of Telegram, the clock and the printing of numbers that Alerts uses
-- are parameters too. Loops are structural recursion on the list that the code iterates over,
-- without fuel, except those of BinanceSync and that the digits of a period's label are made on
-- fuel; the number itself is enough, as Performance.Period proves. In Review the digests, the
-- ids of new rows and the constraints of the tables of decisions are parameters, and an
-- exception gives no tables, as the session is rolled back. The message of an error is cut to
-- its fixed words.
--
-- What is not modelled
--
-- The database, the HTTP handlers, the parsers of the brokers' files, the clients of the
-- brokers' services, the lock and the jobs of the scheduler, and the user interface. The flush
-- of a session, with the constraints that the database then checks, is left out:
-- Reconcile.Persist has the rows that are added, and the rows that stand there if the database
-- takes them.
pub mod Prelude
pub mod Confidence
pub mod Alerts
pub mod BinanceSync
pub mod Capital
pub mod CashLedger
pub mod Distribution
pub mod History
pub mod Performance
pub mod Reconcile
pub mod Review
pub mod Scheduler
pub mod Statement

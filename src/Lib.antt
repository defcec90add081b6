-- ===== src/Lib.antt =====
-- xauusd: the trading core of a research platform for XAUUSD (gold against the US dollar).
--
-- The program decides on orders, fills them into a simulated account and, when it is told to,
-- mirrors them on a broker's demo account. What is modelled here is first the part that guards
-- money, the paper trading account and the path from it to the broker, with the runner that drives
-- it; then the backtester, the queue of experiments, and the stores of quotes, jobs and
-- transcripts.
--
-- Parts and files:
--   * Session (Session/): `market_is_open`, `market_data_age_seconds` and `observation_is_future`
--     of xauusd/paper_trading.py. An aware datetime is the number of microseconds since 0001-01-01
--     00:00 UTC, and the time zone database is a parameter, the function `new_york` from an instant
--     to the New York wall clock, which every instant is taken to have. A minute after the last one
--     that a datetime can hold raises OverflowError (`is_beyond`), in the paper account and in the
--     runner. Calendar prints a date as `date.isoformat` does.
--   * Paper (Paper/): xauusd/paper_trading.py and the class `SQLitePaperTradingStore` of
--     xauusd/local_state.py. State has the account's record and what calls return; Account has
--     `_equity`, `_mark`, `_gate`, `_fill` and `_result`; Store has the state row, the table of
--     decisions and the transactions; Trading has `restart_policy`, `evaluate`, `monitor`, `start`,
--     `stop` and `maybe_resume`. Calls puts them into sequences of calls in any order. Changes,
--     Steps, Decided and Invariants say once what a call can do to the database, and Replay,
--     KillSwitch, Once, Idempotence, Gates, Limits, Total and Marks prove the properties from that.
--     Examples runs the code and applies each theorem at an input. Validation is
--     `validated_paper_state` on decoded JSON, with the OverflowError that it can raise, and
--     Trusted proves what it lets through; RowExamples applies the theorems.
--   * Demo (Demo/): xauusd/ctrader_demo.py and xauusd/demo_execution.py. State has the account,
--     orders, receipts and outcomes; Store has `CockroachCTraderDemoStore`; Adapter has `start`,
--     `stop` and `execute` of `CTraderDemoAdapter`; Reconcile and Exposure have its
--     `reconcile_after_restart` and `verify_position_exposure`; Volume has the volume conversion
--     and policy; Coordinator has `PaperToCTraderDemoCoordinator.execute`. Known, Once, Fresh,
--     Unknown, Fills, Net, Tally, Agreement, Settled, Granted and Behind prove the properties,
--     Examples and BehindExamples apply them. The broker's transport is a parameter, the function
--     `send` from the submissions so far and a new one to a receipt or an exception and the
--     function `snapshot` to the broker's report, and so is the digest behind a long broker id. The
--     broker's report is thus a function of what was submitted, and the paper account's exposure,
--     which the source asks a provider for at each reconciliation, is one number for an adapter; a
--     provider that raises is not modelled, nor is a call of the store that fails for its
--     connection, nor a process that ends inside a call.
--   * Runner (Runner/): xauusd/demo_runner.py. State has the settings, the runner and a tick, which
--     is what the sources and the clock answer in one cycle; Cycle has `run_cycle`, `_stop` and the
--     loop of `run_forever` over a list of ticks; Start has `start`. Sends, Failing and Refused
--     prove the properties, Examples applies them. The paper-only mode, the status file and the
--     alert sink are not modelled, and a clock that raises is not.
--   * Experiments (Experiments/): xauusd/experiment_registry.py. State has the tables; Registry the
--     methods that change them, each one transaction; Calls sequences of calls by any workers.
--     Moves says what a call can do to one row and Steps that every call does no more. Lifecycle,
--     Outcomes, Queue and Champions prove the properties, Examples applies them. The digest behind
--     a fingerprint, SQL's LIKE and the texts written into `error` are parameters or data.
--   * Transcript (Transcript/): the class `SQLiteAgentTranscriptStore` of xauusd/local_state.py.
--     Store has the tables, `_run_family` and the methods that change them; Family and Prune prove
--     the properties, Examples applies them.
--   * Canary (Canary/): `ConfirmedBreakoutCanarySource` of xauusd/canary_strategy.py. Source has
--     `_pending_transition` and what a read remembers, over the signals that the generator made;
--     Once proves the property, Examples applies it.
--   * Quotes (Quotes/): xauusd/quotes.py. Record has `record_spot` and `read_quote`; History, Rows,
--     Accepted and Saved prove the properties, Examples applies them. The snapshot file is a quote,
--     or none where it is absent or corrupt, and `math.isclose` is a parameter.
--   * Jobs (Jobs/): the table of shell jobs and `ShellJobs.start` of xauusd/bits_jobs.py. Store has
--     `claim`, `finish`, `recover` and `prune`, Start the start of a job up to its thread. Once,
--     Prune and Start prove the properties, Examples applies them. The digest of a key, the JSON
--     text and the validation of an action, and the search for secrets are parameters; the process
--     is not modelled.
--   * Engine (Engine/): xauusd/engine.py. Config has `ExecutionConfig` and its validation; Run has
--     `EventDrivenBacktester.run` as a pass over bars in the order of their index, each with its
--     signal. Rows says what a pass adds; Causal, Holding, Ledger and Stops prove the properties,
--     Examples applies them. The alignment of data frames before the loop and the statistics after
--     it are library code.
--   * Number (Number/): Python's numbers, as an interface of operations. The theorems hold for
--     every implementation, so for binary floating point with its rounding, its infinities and its
--     NaN; a theorem that needs laws names them (`IsOrdered`: IEEE comparison orders the finite
--     floats, and integers count exactly). An integer beyond the floats' range, on which
--     `math.isfinite` and arithmetic with floats raise OverflowError, is no such number: it is
--     modelled in Validation, where a stored row may hold one, and not as a decision's quantity or
--     price. Whole implements the interface with exact integers and a NaN, for the examples.
--   * Prelude (Prelude/): Boolean tests, list and option lemmas, texts.
--
-- How the parts interact: `evaluate` and `monitor` hand the store a transition; the store looks the
-- decision id up, reads and validates the state row, runs the transition, writes the row and
-- inserts the result, all in one transaction, which an exception rolls back. A state is the JSON
-- object with its fields typed; a row that the validation refuses is `unreadable` (a row that
-- passes the validation without being such an object, by further keys, another type of reason or
-- ledger entries of another shape, is none that the program writes, and nor is one whose validation
-- raises OverflowError). An exception is a value of `Error` in a `Result`. `coordinate` asks the
-- paper account first, hands an accepted decision to the adapter, and stops both stores' kill
-- switches when the adapter does not accept it. There is no loop that needs fuel: every definition
-- is total.
--
-- Not modelled: the environment's settings, `summary` and the other reports, which are for display,
-- the Open API transport, the paper-only mode of the coordinator, the processes behind shell jobs,
-- data frames, and every other module of the package.
pub mod Canary
pub mod Demo
pub mod Engine
pub mod Experiments
pub mod Jobs
pub mod Number
pub mod Paper
pub mod Prelude
pub mod Quotes
pub mod Runner
pub mod Session
pub mod Transcript

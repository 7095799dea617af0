-- ===== src/Lib.antt =====
-- The download manager's core (core/crates/genrl-core/src), as definitions that run and theorems
-- about them.
--
-- The program fetches episodes that a user's anime list still wants. A planner reads the list
-- and puts jobs into a SQLite queue; workers take each job through search, choose, add, monitor
-- and finalize; every request to a service goes through one HTTP gate. Where the program cannot
-- decide, it asks in the Inbox and an answer moves the job on. Modelled here are the gate, the
-- queue's tables with their moves, its scheduler and crash recovery, the planner, the five steps of
-- a job, the questions and what an answer does, the score of a release and the verdict on it, the
-- names and rules of a show, the comparison of titles, and the decisions on seasons and episodes.
--
-- The files:
--   * Prelude, Prelude/Tests, Prelude/Lists: names, Boolean tests and list lemmas that all share.
--   * Text, Text/Laws: strings as lists of code points, and the few functions of `str` that are used.
--   * Models: the enums of models.rs and their text forms.
--   * Error: error.rs. An error that wraps a library's keeps what the program asks of it.
--   * Http: http/. Breaker is breaker.rs, Backoff is backoff.rs, Policy is policy.rs, Limiter is
--     limiter.rs, Cache is cache.rs, with Refine on it as a map, Wire is wire.rs and `Gate::send`. Gate
--     is gate.rs: Receive is the match on a reply, Dispatch the loop of `dispatch`, Request holds `get_with` and `post_form`.
--   * Jobs: jobs/. Diagram is the table of moves and Move is `transition` (transitions.rs), Enqueue is
--     enqueue.rs, Due is queries.rs, Ladder is backoff.rs of that folder.
--   * Filename: the season markers of filename/release.rs, over the regex engine as an argument.
--     Filename/Normalize is `normalize`, and Filename/Fuzzy is `fuzzy_ratio` with `levenshtein`
--     (filename/normalize.rs): Rows is about the table, Scripts about edit scripts.
--   * Names: names.rs, with Laws on the table and Sync on a sync. Rules: rules.rs.
--   * Questions: questions/choice.rs and questions/payload.rs; Questions/Store is questions/mod.rs.
--   * Score: score/. Filters holds the rejections of `evaluate`, Signal its two scores, Evaluate the
--     whole with `rank`; Laws is about one candidate, Order about the ranking. Matching is
--     `decide_verdict` (matching/decide.rs).
--   * Library: the sanitized names of library/formatting.rs; Laws is about what they are free of, Escape
--     about what slips through.
--   * Planner: planner/. The file itself is list.rs, Preview is preview.rs, Rows is db_ops.rs, Apply
--     is apply.rs, with `plan_single` in Single; Load is `load_from_db`. Chains is about the groups of
--     a list, Load/Alone about those of a loaded one, Cap and Again about a plan that is applied.
--   * Worker: worker/. Run chains the calls of a step and World is what a step meets; Inputs is
--     matching/types.rs with the rows that candidates come from, Helpers is helpers.rs and engine.rs,
--     Acquire is `search_step` and `choose_step`, Add is `add_step` with `confirm_large_download`,
--     Finish is steps_finish.rs and `Engine::step`. Laws is about the steps: Moves and Step on the
--     states that they lead to, Consent on what `add_step` asks first, Large, Stuck and Fruitless
--     on steps that fail; Sample is a world for the tests. Episodes is the part of planner/db_ops.rs
--     that marks an episode; Inbox, with Resolve and Act, is worker/inbox.rs, and Answered and Wait
--     are about its outcomes.
--   * Season: season/. Number is `season_of`, Walk is walk.rs, Decide is decide.rs.
--   * Queue: queue/. Reconcile is reconcile.rs, Scheduler is `tick` and Resume is
--     `resume_blocked` (scheduler.rs), Status is status.rs.
--   * The files Tests in each folder apply the theorems to concrete values.
--
-- How code and model correspond:
--   * A method with `&mut self` is a function from the state to the state. Several tasks on one
--     breaker or limiter are any sequence of calls, since each call holds the lock.
--   * A time is a natural number: nanoseconds for durations and monotonic instants, Unix seconds for
--     the queue and the cache. A difference stops at 0, as that of `Instant` does. Counts from the
--     database are natural numbers, without a bound; the breaker's u32 saturates as in the code.
--   * The limiter's f64 counts are exact multiples of a small unit. An episode number is in tenths,
--     a score in thousandths of a point, as points gained and lost.
--   * A table is a list of rows in the order of their ids, a statement a function on it; a
--     transaction that fails leaves the database as it was. Texts of errors and log lines are
--     constructors or constants.
--   * What reqwest, SQLite's failures, the random draws and the other tasks do in one pass of the
--     loop of `dispatch` is a record `Round`, for each attempt an arbitrary one.
--   * A step runs in a `World`: the settings, the time, and what Nyaa, qBittorrent, the disk and the
--     library answer, which stay the same during the step and differ from step to step. Removing a
--     torrent from qBittorrent is left out, since the step does not look at its outcome. A step that
--     fails keeps what it wrote before.
--   * JSON in a row is the value that it encodes, or, in the table of rules, its text with serde as
--     an argument. A ratio is a numerator and a denominator.
--   * A panic is `none`, where the code has one: indexing a schedule, slicing a chain.
--
-- Fuel: the loop of `dispatch` has `max_attempts` of it, and at least 1, since each pass is an
-- attempt; `season_of` has the length of the chain and one, since each call goes to an earlier entry.
-- Running out is `none` as well.
--
-- Not modelled: the scheduler's run loop and its tasks, the search on Nyaa, the reading of a list
-- from a file, the loading and saving of the settings, the files of the
-- library, the clients of the services, the database layer and its migrations, the command line, and
-- the application in app/ (Flutter). Headers of a request, the parser of `Retry-After` and the
-- building of the HTTP client are left out of the gate.
pub mod Prelude
pub mod Text
pub mod Models
pub mod Error
pub mod Http
pub mod Jobs
pub mod Filename
pub mod Season
pub mod Questions
pub mod Names
pub mod Rules
pub mod Score
pub mod Matching
pub mod Planner
pub mod Worker
pub mod Library
pub mod Queue

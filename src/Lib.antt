-- ===== src/Lib.antt =====
-- The core of openmagpie: feeds poll their sources and record items; a watch subscribes to feeds, and
-- runs a chain of actions (judge, extract, deliver) on every item that comes in.
--
-- The modelled parts, and how they interact:
--   Watches/Enums, Watches/Model
--     The tables of apps/core/watches/models as lists of records in a `Db`, and the enums of
--     packages/openmagpie-schema/src/openmagpie_schema/watch_enums.py. An operation takes the `Db` and
--     gives the new one; an ORM query is a function on the list of rows (Prelude/Table).
--   Watches/Runs
--     The run queue, apps/core/watches/services/runs and services/_run_batches.py: Enqueue (enqueue,
--     enqueue_many, enqueue_advance_batch), Drain (reap_stale, claim_due, count_due) and Complete
--     (complete, digest_batch, complete_batch, fail_batch). `Activity` is the summary
--     that the API shows. `Sound` is the invariant of the run table.
--     `Writes` are the sequences of writes to it that other workers interleave, and `Fencing` is about
--     claims and completions under them.
--   Watches/Windows
--     apps/core/watches/services/digest.py: the digest windows that hold back an action's runs.
--   Watches/Chain
--     apps/core/watches/services/watches/_actions.py: the rank order of a path's actions;
--     `Edits` are its writes, with the path's lock and the validated config as arguments, and
--     `Replace` is replace_chain, with merge_config and known_kinds as arguments (an input says whether
--     its secret is masked).
--   Watches/Advance, Watches/Deliveries
--     apps/core/watches/operations/advance.py, which queues the next action's runs and opens its window,
--     and the audit rows of apps/core/watches/services/deliveries.py.
--   Watches/Drain
--     apps/core/watches/operations/drain.py: one claimed run is resolved, executed, completed, advanced.
--   Watches/Trigger
--     apps/core/watches/operations/trigger.py: new feed items become runs of the chain's head.
--   Watches/Flush
--     apps/core/watches/operations/digest_flush.py: a due window's runs are emitted in slices.
--   Watches/Items
--     The recording and pruning of feed items in apps/core/feeds/services/feeds/_items.py.
--   Watches/Backfills
--     The job table of apps/core/watches/services/backfills.py and the guarded writes of
--     apps/core/watches/operations/backfill.py.
--   Common/Cache, Common/Locks, Common/Commands
--     apps/core/common/locks.py, the try-locks on the cache of Django: `Cache` is that cache's operations
--     with what its documentation says of them, an argument of all that uses it. `World` has the holders
--     as processes that take, renew, release and crash; `Renewer` is the thread of lease_renewer.py, tick
--     by tick; `Commands` is the single flight of commands.py. `Memory` is a cache in memory.
--   Feeds/Sources, Feeds/Watermarks
--     apps/core/feeds/services/sources.py and _sources_seek.py with the guards of policy.py: the sources
--     of a feed are replaced as a set, under the feed's lock; a poll advances a source's watermark by
--     compare-and-set, and an operator seeks it. The sources as a map from hashes are in `View`.
--   Schema/RunWindows
--     packages/openmagpie-schema/src/openmagpie_schema/run_windows.py: the values of a time window, which
--     the seek and the backfills resolve.
--   Auth/DeviceSessions
--     apps/core/auth_api/device_sessions.py and device_session_store.py: a command line signs in, on a bag
--     in the cache.
--   Links/ShortLinks
--     apps/core/links/services/short_link.py: short links are minted, resolved, revoked and clicked.
--   Watches/Tests, and Tests of the other parts
--     A small deployment at which the theorems are applied.
--
-- Conventions. An id is a ULID and stands as a number in its order; 0 is the blank string. Times are
-- seconds. JSON blobs are opaque numbers. An exception is `none` or a constructor of its own, and a
-- transaction that raises gives back the tables of its start. An UPDATE with a WHERE clause and an
-- operation under a row lock are one step. The action impls, the registry of the result schemas and the
-- settings are parameters: what an impl returns is any function of its inputs, and the results that need
-- it ask that it is an outcome, as the protocol of apps/core/watches/actions/protocol.py documents.
--
-- Bounds. `Flush.flush` runs on fuel, a number of slices. The bound to give is one more than the number
-- of the action's PENDING runs, as a slice that asks for another takes at least one of them. The other
-- loops are recursions on lists.
--
-- Not modelled: logs, progress callbacks and telemetry; the command line and the other wire schemas; the
-- poll cycle, engines and connectors, which are third-party clients; accounts, plugins and mail. In
-- Common/Locks/World each call of the cache is a step of its own; `renew` and `release` by themselves, and
-- so the renewer and the single flight, are without another process between their two calls. A claim of
-- the drain and the read of the claimed row that follows it are one step.
mod Prelude
pub mod Common
pub mod Feeds
pub mod Schema
pub mod Auth
pub mod Links
pub mod Watches

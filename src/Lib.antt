-- ===== src/Lib.antt =====
-- code-discovery-pyramid: the deterministic core of the map of a code base that agents write.
--
-- Agents examine the scopes of a repository in waves and return patches: claims with anchors into
-- files, and unknowns. The log of patches is never rewritten. The state is the fold of the log:
-- anchors are verified, the best patch of each node is taken, claims are merged, judged against the
-- extracted structure, and unknowns are kept until something discharges them.
--
--   Base        lists, orders, sorting, dicts and texts (a text is a list of code points), and the
--               loops that keep the best value of a key; normalise_ws of cdp/util.py is Base/Text
--   Claims      the records of schema/patch-1.0.0.json
--   Anchor      cdp/anchor.py: find_matches, build_anchor, verify_anchor
--   Verify      cdp/verify.py: verify_patch and, in Verify/Totals, verify_all; Sources is the
--               repository as read_lines gives it
--   Merge       cdp/merge.py: _signature to _resolve; Merge/Operator: _union to merge_claims
--   Extract     the part of extract.json that is read here; its index is in cdp/gates.py
--   Entail      cdp/entail.py: entail_claims, summarize
--   Gates       cdp/gates.py: the gates of new unknowns, discharge_unknowns, cluster_unknowns
--   State       cdp/state.py: fold, _coverage, _dedupe_unknowns; State/Digest: fold_hash,
--               _permutations
--   Schedule    cdp/schedule.py: build_schedule
--   Supervisor  cdp/supervisor.py: dispatch_scope, _classify_returned; Supervisor/Wave: run_wave,
--               mark_folded
--   Graph       cdp/graph.py: build_symbol_index and owners_of; Graph/Edges: _observed_edges and
--               _declared_edges
--   Partition   cdp/partition.py: _scope and _cut; Partition/Packing: _coalesce and _pack_siblings;
--               Partition/Division: assert_partition and partition
--   TaskTable   cdp/store/sqlite_backend.py: the tables of tasks and runs, leases and resumption;
--               TaskTable/Races: the statements of several supervisors, interleaved
--   Rollback    cdp/rollback.py: the patches that a rollback leaves
--   Examples    concrete inputs at which the theorems are applied
--
-- State calls Verify, Merge, Entail and Gates in the order of the source; Supervisor calls Verify to
-- judge a returned patch. A dict is an association list in insertion order, a set is a list, and
-- sorted is a stable insertion sort by key. The TypeError of merge_claims is none, an Option.
--
-- Partition makes the scopes that Schedule and Supervisor work on, and Supervisor keeps their states
-- and leases in TaskTable. In TaskTable a time is a count of milliseconds, whose texts in the source
-- are ordered alike, and an SQL statement is atomic. An agent of TaskTable/Races is one call of
-- dispatch_scope or of reclaim_expired in any process, and each statement of it is a step: the SELECT
-- and the UPDATE of reclaim_expired are two. As in the source, a heartbeat or a release does not look
-- at who holds the row. That it comes while the agent's own lease is live, and that the rows that a
-- reclaim_expired has selected have no live lease when it updates them, is the hypothesis AllTimely
-- of the theorems on runs.
--
-- Graph draws the edges whose ends Schedule reads. The bound of 12 in owners_of is the source's own.
--
-- The loops of the source are structural recursion. Fuel is used in seven places: the growth of an
-- anchor and the attempts of a dispatch, where it is the bound of the source's own loop; the chunks
-- of a level, where the length of the bucket is enough because a chunk takes at least one scope; the
-- digits of a number, where the number itself is enough; the search for a text among the lines of a
-- file, where one more than the length of the joined lines is enough because each round starts beyond
-- the last match; the cut of a directory, where the longest path is enough because each level takes a
-- character or more of it; and the merging of scopes, where their number is enough because each merge
-- leaves fewer.
--
-- Parameters: the digests of stable_hash, which hashlib computes, what a round of a dispatch meets
-- (the lease, the runner and the file that it leaves), and the order in which a set is walked. A
-- missing optional argument is the empty value that the source puts in its place.
--
-- Not modelled: floats (the coverage fraction and the ratios), printed summaries, the other tables
-- of the databases, the layering of the graph, the extraction of source text, the command line,
-- servers and adapters.
pub mod Base
pub mod Claims
pub mod Merge
pub mod Schedule
pub mod Anchor
pub mod Verify
pub mod Extract
pub mod Entail
pub mod Gates
pub mod State
pub mod Supervisor
pub mod Rollback
pub mod Graph
pub mod Partition
pub mod TaskTable
pub mod Examples

-- ===== src/Lib.antt =====
-- OpenIVM keeps materialized views up to date inside DuckDB by rewriting a view's plan into queries over
-- pending deltas. This library models the parts of the extension that decide what those queries are:
--
-- - Base: what the others share. Numbers are natural numbers with explicit tests (Base/Tests), texts
--   are lists of byte values (Base/Lists), integers are pos n and negsuc n (Base/Int).
-- - Join: src/delta/operators/join.cpp. Masks of leaves (Join/Mask: CountBits and the bit operations),
--   DetectDeltaStatus, DetectFKRelations and ComputeSkipBits (Join/Status), the loop of
--   BuildInclusionExclusionTerms over the masks (Join/Terms), and what a term weighs at a joined row,
--   as a Z-set (Join/Weights). A leaf is its current table and its pending delta (Join/Leaves). What
--   the source asks of the database (counts of pending rows, EXISTS queries) is a value that the
--   functions take, and the records ProbeSound and KeySound say what such an answer is taken to mean,
--   FkIntegrity what a foreign key is (Join/ForeignKeys). The terms are those of a join of inner leaves: left joins and the rewriting of
--   operators in memory are not modelled.
-- - DuckLake: src/delta/operators/ducklake_join.cpp, BuildDuckLakeJoinTerms, with the same rows and
--   weights. SnapshotSound and MatchSound say what the answers of the database mean. It is the other strategy that CompileJoinDelta can choose.
-- - Classifier: src/core/ivm_view_classifier.cpp with src/include/core/ivm_view_classifier.hpp. The
--   facts of a plan go through BuildUnsupportedReasons and BuildModelFeatures (Classifier/Reasons),
--   SelectRefreshType, SelectGroupRecomputeAffectedMode, AttachAuxRequirements and
--   BuildUpdateSemantics (Classifier/Select), in the order of BuildDeltaViewModel
--   (Classifier/Decide). DeduplicateGroupColumns is in Classifier/Dedup; what else builds the group columns
--   is not modelled. Classifier/Names has the
--   printed names.
-- - Checker: src/core/incremental_checker.cpp, from a plan to those facts. A plan is a tree of what the
--   source reads of DuckDB's operators (Checker/Operators). What single clauses add is in
--   Checker/Facts, what an operator adds in Checker/Local, AnalyzeNode in Checker/Analyze.
--   Checker/Offends describes the refused plans without the analysis. The proofs see the analysis as
--   a sequence of additions (Checker/Adds, Checker/Grows).
-- - DeltaModel: src/core/ivm_delta_model.cpp, from a plan to the nodes of the delta model: what a node
--   gets (DeltaModel/Node, DeltaModel/Maintenance), the recursion over the plan (DeltaModel/Build) and
--   the base affected domains (DeltaModel/Domains). A plan is a tree of what the source reads of an
--   operator. Lineage is not modelled.
-- - Dispatch: src/delta/operators/dispatch.cpp and src/delta/delta_compiler.cpp, from an operator and the
--   nodes of the delta model to the function that compiles the operator's delta.
-- - Sql: src/core/sql_utils.cpp and the JSON readers of src/core/refresh_metadata.cpp. A position in a
--   text is the rest of the text; the flags of a scanner are a data type. Functions on std::regex are
--   not modelled.
-- - Extract: src/core/parser_sql_extractors.cpp, the scanners of the text of a query (Extract/Keywords,
--   Extract/Parens, Extract/Tokens), the select list (Extract/Select), ExtractFilteredGroupCount
--   (Extract/Filtered), ExtractSemiAntiJoin (Extract/SemiAnti) and ExtractExistsSubquery
--   (Extract/Exists), each on an empty record. Extract/ParenLaws has the grammar of nested texts.
--   Trimming, lowering and comparison without case are DuckDB's, and parameters. The extraction of
--   inner DISTINCTs and of IN is not modelled.
-- - Daemon: src/core/refresh_daemon.cpp, one cycle of Run. The clock, the locks and the dependencies of
--   views are parameters, and so are the hooks and the exceptions. What the cycle sends to the database is
--   a list of statements; what they do there is not modelled. Daemon/Covers says which views a refresh
--   covers by cascade, without the list that the code keeps.
-- - Locks: src/core/refresh_locks.cpp and the guards of src/include/core/refresh_locks.hpp, as a step
--   relation over the guards of all threads. The daemon asks these locks whether a view is refreshing.
--
-- The classifier's model is what the delta model's nodes read (unsupported reasons, features, aux
-- states); the Sql names and quotes are those of the tables that the join and the daemon query.
--
-- Bounds: a join has at most 16 leaves (MAX_JOIN_TABLES), so a mask is below 2 ^ 16 and the 64 rounds of
-- CountBits are enough. The loops over the positions of a keyword (keyword_positions) get one turn more
-- than the text has characters, which extract_filtered_group_count-total shows to be enough; the digits
-- of a number n get n turns and one (value_from-decimal), and the search for a free name gets one turn more
-- than there are names taken (free_candidate-total). All other recursion is structural.
--
-- Not modelled: parsing and DDL, the rewriting of plans in memory, generation of refresh SQL, the cost
-- model (floating point), view matching and the optimizer hooks.
pub mod Base
pub mod Join
pub mod DuckLake
pub mod Classifier
pub mod DeltaModel
pub mod Sql
pub mod Daemon
pub mod Locks
pub mod Checker
pub mod Extract
pub mod Dispatch

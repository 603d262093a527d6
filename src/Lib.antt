-- ===== src/Lib.antt =====
-- ExpertFlow: the analysis core of src/expertflow, modelled and proved.
--
-- The program records which experts a mixture-of-experts router selects (a trace), replays the
-- trace against residency policies, predictors and prefetchers, and projects the memory layout of
-- the experts. The files below model these parts; paths are those of the repository.
--
-- Trace (src/expertflow/trace/schema.py, trace/io.py): `Trace.Event` is the record, `Trace.Json` the
-- JSON values that a decoder gives, `Trace.Schema` the parser: `parse_router_event` with its helpers
-- `_string`, `_uint`, `_expert_ids` and `_expert_weights` as `string_field`, `uint_field`,
-- `expert_ids` and `expert_weights`, and `load_router_events` over the lines of a file. `json.loads`
-- is the parameter `loads`, and `float` of an integer the parameter `to_float`; nothing is assumed of
-- either. A number that is no integer is a `Float`: a sign, a mantissa and an exponent, or one of the
-- special values. Of a message the record number, the field and the fixed text are kept.
-- `Trace.Parity` is src/expertflow/trace/parity.py: the parser of token sequences and
-- `compare_token_sequences`, with the reading of a file and `Path.resolve` as parameters.
--
-- CacheSim (src/expertflow/analysis/cache_sim.py): the three policies `reactive`, `static_hotset` and
-- `lru` (`policy_outcomes`) and their report (`simulate_policies`). An OrderedDict is the list of its
-- keys, least recently used first (`Base.Ordered`); a defaultdict or Counter is an association list
-- read with a default (`Base.Dict`). Rates are exact fractions.
--
-- Capacity (src/expertflow/analysis/capacity_curve.py): `build_capacity_curve` and, in
-- `Capacity.HeldOut`, `build_held_out_capacity_curve`, which score the policies at several capacities.
-- The `==` of the weights of two events is a parameter, which the theorems assume to be reflexive.
--
-- Replay (src/expertflow/analysis/replay.py): `replay_policy` over the outcomes of a policy, with and
-- without training events.
--
-- Shadow (src/expertflow/predictor/shadow.py): `simulate_shadow`, the speculative cache beside the
-- reactive one, with its totals.
--
-- Temporal (src/expertflow/predictor/temporal_shadow.py, predictor/temporal_dataset.py):
-- `simulate_temporal_shadow` over the tokens of continuous conversations, and in `Temporal.Dataset` the
-- loop of `load_temporal_dataset` that turns the events of a shard into samples, without the manifest.
--
-- Prefetch (src/expertflow/analysis/prefetch_sim.py): `simulate_concurrent_prefetch`, several traces
-- interleaved in steps over one cache for each layer. `Prefetch.Inputs` has the groups, the events of
-- a step and the candidates, `Prefetch.Issue` the loop that issues transfers within a budget. The time
-- of a transfer is a natural number, the waste is counted in bytes and nothing is rounded.
--
-- Calibration (src/expertflow/compiler/cost_model.py): `select_measurement_batch` and
-- `update_calibration`. A finite double that is not negative is a multiple of 2 ^ -1074, and a natural
-- number here. The residual of a metric is written out; the rounding of its operations is a parameter,
-- which can overflow to infinity, and the new state of an update runs the tests of `__post_init__`.
-- `while available` runs on as much fuel as the budget, since each round selects a candidate.
--
-- Placement (src/expertflow/compiler/static_placement.py): `generate_static_candidates`, the greedy
-- prefixes of the best layers and the diagnostic candidate, under a budget of bytes and two caps, and in
-- `Placement.Profile` the ranking of the layers by a profile (`rank_layer_benefits`). The median and the
-- score, which are computed in floating point, are parameters.
--
-- Layout (src/expertflow/analysis/expert_layout.py): `build_expert_inventory`, the byte spans of the
-- experts in a tensor and in a CUDA slot.
--
-- Exceptions are values: `Result` carries the kind of the exception and the fixed part of its text. A
-- `while` loop of the source runs on fuel (`make_room`): its fuel is one more than the length of the
-- cache, and each round takes one expert out of it. Integers have no width, as in Python; counts,
-- sizes and ids are natural numbers, and the bounds that the schema checks are written out.
--
-- Not modelled: the command line, files and processes, the CUDA transfer code, the service and its
-- sessions, floating-point statistics, and the compiler of execution plans, except what is named
-- above. The modules under Tests run the definitions and apply the theorems to concrete traces.
pub mod Base
pub mod Trace
pub mod CacheSim
pub mod Replay
pub mod Calibration
pub mod Capacity
pub mod Layout
pub mod Placement
pub mod Prefetch
pub mod Shadow
pub mod Temporal
pub mod Tests

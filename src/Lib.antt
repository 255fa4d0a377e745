-- ===== src/Lib.antt =====
-- meshforge-maps merges live nodes of several mesh networks into one map. Collectors fetch features
-- from their sources, an MQTT subscriber keeps a store of live nodes, the aggregator merges what all of
-- them give, times it and hands it to the history database, and an HTTP server with a WebSocket brings
-- it to the browser. Around them stand small stateful parts, each a class with a lock over its
-- dictionaries. They meet in the server (src/map_server.py): a request passes the rate limiter before
-- it is routed; each node that arrives is given to the state
-- tracker, the drift detector, the health scorer and the alert engine; and what they find is published
-- on the event bus. A collector retries with the reconnect strategy, and shares meshtasticd with other
-- programs through the connection manager.
--
-- The files, with the code they model:
--   RateLimiter: src/utils/rate_limiter.py. `RateLimiter.allow` is `allow`, which is `make_room` (the
--     forced prune and the eviction), `balance` (the refill) and `spend` (the write, the lazy prune and
--     the answer). Simulation has the specification, a limiter that never forgets a bucket, and
--     Refinement the sequences of requests.
--   NodeState: src/utils/node_state.py. `record_heartbeat`, `check_offline`, `remove_node` and
--     `get_node_state` of `NodeStateTracker`, with `_classify` and `gap_ratio`.
--   AlertEngine: src/utils/alert_engine.py. `evaluate_node` is the loop `evaluate_rules` over
--     `evaluate_rule`; Methods has the other methods of `AlertEngine`, `_cleanup_stale_cooldowns` as
--     `cleanup`.
--   ConfigDrift: src/utils/config_drift.py. `check_node` is `check_new` or `check_known`, whose loop
--     is `compare_fields`.
--   ConnectionManager: src/utils/connection_manager.py. `Step` is what one thread does atomically in
--     its `with mgr.acquire(...)`, `Steps` an interleaving; `try_acquire`, `release` and `exit` are the
--     methods of a thread alone.
--   Reconnect: src/utils/reconnect.py. `next_delay`, `should_retry`, and runs of failures.
--   EventBus: src/utils/event_bus.py. `subscribe`, `unsubscribe`, `publish`, `_safe_call`.
--   PluginLifecycle: src/utils/plugin_lifecycle.py. `phase` is a `with` of `activating` or
--     `deactivating`; Phases has the sequences of them.
--   HealthScoring: src/utils/health_scoring.py. `score_node` with its five components, and the table.
--   NodeHistory: src/utils/node_history.py. The file has the tables, the caches and the write of one
--     row (`_maybe_append_trajectory_locked` is `maybe_append`); Methods has `record_observation`,
--     `record_observations_batch`, `prune_old_data` and the counts; Queries has the reads. Specification
--     has the two tables without the caches, and Refinement the sequences of calls.
--   PerfMonitor: src/utils/perf_monitor.py. `record_timing`, `record_cycle`, `TimingContext` and
--     `_percentiles`; Reports has `get_source_stats` and `get_stats`.
--   NodeStore: src/collectors/mqtt_subscriber.py, `MQTTNodeStore`, with `update_position`,
--     `update_nodeinfo`, `update_telemetry`, `update_neighbors` and `cleanup_stale_nodes`; Reads has
--     `get_node`, `get_all_nodes`, `get_topology_links` and `_classify_snr`.
--   MqttSubscriber: the rest of that file. `_safe_float` and `_safe_int` with the tables of metrics;
--     Handlers and Decoding have a handler for each port number and for JSON, Messages `_on_message`,
--     Loop `_run_loop`, Topics `_on_connect`.
--   Geo and Collector: src/collectors/base.py. Coordinates, boxes and polygons; the online status, the
--     merge of feature lists, and `BaseCollector.collect` with its cache and its loop `retry`; Tries has
--     what its tries come to, Cache what it answers.
--   Aggregator: src/collectors/aggregator.py. `collect_all` is `cached`, or the cycle `collect_now` of
--     `collect_each` over the collectors' interface `Sources`, `scoped` and `finish`; Methods has the
--     other methods, Brokers `_resolve_broker_specs`, `restart_mqtt`, and as `init_mqtt` the part of the
--     constructor that starts subscribers.
--   Base, Int, Float, Dict: what Python gives them. Lists, texts and bounded queues over the native
--     numbers, integers, floats, dictionaries in insertion order with the eviction of the oldest entry.
--   Tests: runs of the definitions, and the theorems at concrete inputs.
--
-- A method is a function from the object's state to its next state and its answer. The locks make each
-- of them one step, except in ConnectionManager, where the steps of the threads interleave. The clock
-- value that a method reads is an argument. A callback whose exceptions are caught and that has no
-- effect on the state is what is handed to it. Floats are exact, in units of 10⁻⁷, beside the
-- infinities and NaN: rounding is not modelled, except for the range of `**` in Reconnect and the
-- `round` of the reports of PerfMonitor. There is no fuel: every loop of the modelled code is over a
-- list or a counter, and so is its recursion.
--
-- A write of the history database takes the faults of its statements as an argument, and the functions
-- of `math` are parameters of its distance; a statement that fails may take the open transaction back with
-- it, to the last commit. Protobuf, its decryption and JSON are decoded by third-party
-- code: a message arrives with the fields that they give. Durations of the performance monitor are
-- natural numbers of 2⁻²⁰ milliseconds, which it rounds to hundredths as Python does.
--
-- Not modelled: the HTTP and WebSocket servers, the single collectors, the configuration but for its `to_dict`, the terminal
-- interface, and the web client; the start and stop of threads and clients; and of the modelled files
-- the dictionaries that reports are made of, the log messages, the set-up, migration and backup of the
-- database, and the cache files on disk.
pub mod Aggregator
pub mod AlertEngine
pub mod Base
pub mod Collector
pub mod ConfigDrift
pub mod ConnectionManager
pub mod Dict
pub mod EventBus
pub mod Float
pub mod Geo
pub mod HealthScoring
pub mod Int
pub mod MqttSubscriber
pub mod NodeHistory
pub mod NodeState
pub mod NodeStore
pub mod PerfMonitor
pub mod PluginLifecycle
pub mod RateLimiter
pub mod Reconnect
pub mod Tests

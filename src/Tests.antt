-- ===== src/Tests.antt =====
-- The modules of runs and examples, one for each part.
pub mod RateLimiter
pub mod NodeHistory
pub mod NodeState
pub mod NodeStore
pub mod MqttSubscriber
pub mod Aggregator
pub mod AlertEngine
pub mod ConfigDrift
pub mod ConnectionManager
pub mod Reconnect
pub mod EventBus
pub mod PerfMonitor
pub mod PluginLifecycle
pub mod Geo
pub mod Collector
pub mod HealthScoring

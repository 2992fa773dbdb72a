-- ===== src/Health.antt =====
-- The health monitor: status levels, the threshold evaluator, the snapshot store, the alert
-- engine and the poll that joins them (monitor/app).
pub mod Status
pub mod Evaluator
pub mod Alerts
pub mod Store
pub mod Poll
mod Tests

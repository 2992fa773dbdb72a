-- ===== src/Health/Evaluator.antt =====
-- Stateless threshold evaluation (monitor/app/evaluator.py). A threshold file has two levels: a
-- service's thresholds are scalars or tables of scalars.
pub mod Threshold
pub mod Worst
pub mod Items
pub mod Laws
pub mod Explained
pub mod Messages
pub mod Monotone
pub mod Returns

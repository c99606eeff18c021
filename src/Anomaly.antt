-- ===== src/Anomaly.antt =====
-- The anomaly detector of `src/ai/anomaly_detect.py`.
pub mod Durations
pub mod Hours
pub mod Days
pub mod Arithmetic
pub mod Analysis
pub mod Run

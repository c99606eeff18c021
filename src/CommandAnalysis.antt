-- ===== src/CommandAnalysis.antt =====
-- The analysis of a user's command history (`src/ai/command_analysis.py`).
pub mod Machine
pub mod Volume
pub mod Report
pub mod Analyze

-- ===== src/Generators.antt =====
-- src/ai/generate_user_baseline.py and src/ai/generate_test_data.py: sessions and histories made up
-- at random.
pub mod Integers
pub mod Host
pub mod Sessions
pub mod Writes
pub mod Plans
pub mod Baseline
pub mod TestData

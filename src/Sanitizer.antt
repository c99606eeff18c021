-- ===== src/Sanitizer.antt =====
-- src/ai/sanitizer.py: what is done to a command history before a language model sees it, and to
-- the model's answer. Texts are lists of code points.
pub mod Regex
pub mod Patterns
pub mod Lines
pub mod Prompt
pub mod Response

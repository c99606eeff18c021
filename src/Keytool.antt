-- ===== src/Keytool.antt =====
-- The command-line tool `wrapper/esp32_keytool.py`.
pub mod Packets
pub mod Commands
pub mod Main

-- ===== src/Bridge.antt =====
-- wrapper/esp32_agent_bridge.py: the SSH agent bridge, one child for each layer.
pub mod Object
pub mod Blobs
pub mod Link
pub mod Replies
pub mod Requests
pub mod Dispatch
pub mod Socket
pub mod Client
pub mod Threads
pub mod Process

-- ===== src/Chat/Tools.antt =====
-- backend/internal/chat/tools/: the tools that a model may call: how arguments are checked, what is
-- called, and how results and errors are cut down to what the model reads.
pub mod Shrink
pub mod Backend
pub mod Results
pub mod Fields
pub mod Checks
pub mod Validate
pub mod Guard
pub mod Runs

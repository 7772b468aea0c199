-- ===== src/Qwen.antt =====
-- The Qwen voice sidecar (src-tauri/src/qwen).
pub mod Prepare

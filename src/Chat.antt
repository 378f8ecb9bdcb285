-- ===== src/Chat.antt =====
-- What is said about the model: backend/internal/chat/agent/history.go, backend/internal/notes/anchor.go.
pub mod Llm
pub mod History
pub mod Prompts
pub mod Agent
pub mod Limits
pub mod Tools
pub mod Citations
pub mod Card
pub mod Notes

-- ===== src/Parser.antt =====
-- Reading the documents: backend/internal/parser.
pub mod Rows
pub mod Tables
pub mod Kinds

-- ===== src/CsvDb.antt =====
-- The CSV database tool: src/agent/tools/csv_db/.
pub mod Value
pub mod Lexer
pub mod Parser
pub mod Eval
pub mod Database
pub mod Tables
mod Tests

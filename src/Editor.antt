-- ===== src/Editor.antt =====
-- The inline editor's data layer: src/app/ui/text_buffer.rs, over src/app/markdown/document.rs.
pub mod Undo
pub mod Buffer

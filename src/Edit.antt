-- ===== src/Edit.antt =====
-- corpus/edit/edit.go: a corpus is split into chunks, one file of two positions for each.
pub mod Split
pub mod Bytes
pub mod Files

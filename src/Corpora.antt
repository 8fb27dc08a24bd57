-- ===== src/Corpora.antt =====
-- corpus: the configuration of corpora.
pub mod Setup
pub mod Lookup
pub mod Markdown
pub mod Files
pub mod Autoconf
pub mod Info

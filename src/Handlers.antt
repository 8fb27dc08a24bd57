-- ===== src/Handlers.antt =====
-- corpus/handlers: the HTTP actions.
pub mod YearRange
pub mod Parallel
pub mod Stream
pub mod Collocations
pub mod Request
pub mod QueryProps
pub mod Exchange
pub mod Conc
pub mod CollsExtended
pub mod Frequencies
pub mod Context
pub mod Chunked
pub mod WordForms
pub mod Audio
pub mod SplitActions
pub mod Info
pub mod StreamActions

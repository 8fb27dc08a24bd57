-- ===== src/Worker.antt =====
-- worker: the actions that a worker runs for the queries of the queue.
pub mod FreqResult
pub mod NormsCache
pub mod Actions
pub mod Lines
pub mod TextTypes
pub mod Run

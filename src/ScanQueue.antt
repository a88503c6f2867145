-- ===== src/ScanQueue.antt =====
-- backend/handlers/scan_queue.go: the queue of scans and what feeds it.
pub mod Job
pub mod Queue
pub mod Matching
pub mod Rescan
pub mod Batch

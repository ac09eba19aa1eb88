-- ===== src/Memory.antt =====
-- The adapters that keep everything in memory: internal/adapters/secondary/queue/memory.go and
-- internal/adapters/secondary/storage/memory.go.
pub mod Queue
pub mod Storage
pub mod Ports

-- ===== src/Tests.antt =====
-- The theorems at concrete inputs: an allocator that gives what an address space holds, and a table
-- that is an association list.
mod Heaps
mod AssocTable
mod FrameRuns
mod WatcherRuns
mod PathRuns
mod HandshakeRuns
mod ArchiveRuns
mod RecordRuns
mod SessionRuns
mod Clients
mod ClientRuns
mod QueueRuns
mod ReplyRuns
mod CredentialRuns

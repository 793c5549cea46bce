-- ===== src/CheckSource.antt =====
-- internal/application/checksource.go: one check of a source. The ports (fetcher, normaliser,
-- artifact store, repositories, queue, event publisher, identifiers, clock) are the record
-- `Ports`; every call that acts on the outside is kept, in order, in the log of the run.
pub mod Ports
pub mod Outcome
pub mod Content
pub mod Events
pub mod Execute
pub mod State
pub mod Outages
pub mod Flow
pub mod Extraction
pub mod Fetches
pub mod Politeness

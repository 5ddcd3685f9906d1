-- ===== src/Debug.antt =====
-- src/semDebug.h and src/semDebug_sharedDataSync.h: what a process records about its operations on
-- semaphores, and the labels of the deadlock report.
pub mod Events
pub mod Labels
pub mod Calls
pub mod Diagnostics
pub mod Report

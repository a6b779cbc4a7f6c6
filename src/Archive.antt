-- ===== src/Archive.antt =====
-- ArchiveDlg.cpp: the handlers of the main window, and what they do with files and the database.
-- The windows, the progress bar and the traces are left out.
pub mod Files
pub mod Sealing
pub mod Guards
pub mod Batch
pub mod Dialog
pub mod Units
mod Examples

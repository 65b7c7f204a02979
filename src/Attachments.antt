-- ===== src/Attachments.antt =====
-- internal/attachments: listing and downloading the attachments of an approval.
pub mod Limiter
pub mod Readers
pub mod Filename
pub mod Downloader
pub mod Service
mod Tests

-- ===== src/Webdav.antt =====
-- internal/webdav: what guards a write over WebDAV.
pub mod WriteState
pub mod Handler
pub mod Admission
pub mod Aliases
pub mod Paths
pub mod Maintenance
pub mod Retention
pub mod Discard
pub mod WriteFile
pub mod ReadCache
pub mod Directory
pub mod Preconditions
pub mod FileSystem
pub mod ReadFile
pub mod Serve

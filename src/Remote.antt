-- ===== src/Remote.antt =====
-- Project_3: a FUSE file system with one file, and the client and the server of a remote one.
pub mod Hello
pub mod Socket
pub mod Requests
pub mod Chunks
pub mod System

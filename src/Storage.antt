-- ===== src/Storage.antt =====
-- storage/: the files that a download keeps beside its destination.
pub mod Paths
pub mod FileSystem
pub mod Discard
pub mod Manifest
pub mod Sidecar
pub mod PartFile

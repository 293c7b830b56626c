-- ===== src/Files.antt =====
-- Archives and the paths of their files: pkg/gateway/util/zip.go.
pub mod Path
pub mod Unzip

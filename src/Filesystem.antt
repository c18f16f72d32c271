-- ===== src/Filesystem.antt =====
-- include/cget/filesystem/filesystem_service.h and src/filesystem/filesystem_service.cpp: safe names
-- and paths, the files on the disk, and the merge of the chunks.
pub mod Names
pub mod Paths
pub mod Disk
pub mod Merge
pub mod Output

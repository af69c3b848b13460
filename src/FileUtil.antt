-- ===== src/FileUtil.antt =====
-- src/db_file_util.cpp: the names of files, the log files and the checkpoints of a database.
pub mod Names
pub mod NameLaws
pub mod Files
pub mod Current
pub mod Needed
pub mod Metafile
mod Tests

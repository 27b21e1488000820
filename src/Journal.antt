-- ===== src/Journal.antt =====
-- inc/journal.hpp, src/journal.cpp, src/journal_reader.cpp: log excerpts and the journal's severity.
pub mod Filter
pub mod Buffer
pub mod Reader
pub mod Entry
pub mod Utf8

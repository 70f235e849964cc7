-- ===== src/Watch.antt =====
-- Watching a directory (internal/watch/watch.go): the filters that rename and merge events, and the
-- loop that gathers them. The walk that finds the directories to watch is not part of the model.
pub mod Filters
pub mod Loop
pub mod Walk

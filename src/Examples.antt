-- ===== src/Examples.antt =====
-- Tests of the definitions on concrete inputs, and each theorem at an input that it speaks of.
mod Players
mod Specs
mod Supervision
mod Watching
mod Flags
mod Matches
mod Lobbies
mod Stats
mod Logs
mod Lives
mod Collectors
mod Walks
mod Setups
mod Archives
mod Programs
mod Calls

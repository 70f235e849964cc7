-- ===== src/Lib.antt =====
-- snap-gs runs a dedicated game server, called a lobby, restarts it, reads what it prints, and talks to
-- systemd and to other lobbies by files. This library models the Go program.
--
-- The parts and how they meet. `cmd/snap-gs/main.go` runs the command and turns its error into an exit
-- code (`public/cmd/root.go`). `public/lobby/lobby.go` runs one lobby after another until the failures
-- are too many. A lobby (`internal/lobby`) is one child process with goroutines around it: two scanners
-- read its output line by line (scan.go), and change the players (players.go), the match in progress,
-- the channel of finished matches (collect.go) and the status files (stat.go); a watcher looks at the
-- clock and at the spec (watch.go, spec.go); each of them ends the lobby by Cancel (lobby.go). The spec
-- and the options (`public/options/lobby.go`) follow directories of files by `internal/watch/watch.go`.
--
-- Which file models which part:
--   Base           numbers, bytes and the parts of Go's library in use: strconv, the prefix and suffix
--                  functions, white space, maps as association lists (Base/GoMap), and the order in
--                  which a map is walked as any permutation (Base/MapOrder)
--   Errors         the error values that are compared by identity
--   Players        internal/lobby/players.go: `set`, `add`, `update`, `remove`, `find` (Lookup), `count`
--                  and `migrate`. Invariant holds what every call keeps, Admin the election, History
--                  the calls in sequence
--   Log            internal/log/log.go: `logv` is the list of the writes of Logv, or none where it would
--                  write past its buffer of 1024 bytes; Log/Uptime has uptime,
--                  Logf and the functions of the levels
--   Match          internal/match/match.go: Normalize and Anonymize, over any type of floats
--   Spec           internal/lobby/spec.go: ReasonAfter and its cases; Spec/Files is the callback of
--                  Watch, one reading of a file at a time
--   Options        public/options/lobby.go: Validate; Options/Files is the callback of Watch
--   Command        public/cmd/lobby.go: the defaults of the flags, and the options that RunE makes of
--                  flags and environment; Command/Setup is the rest of RunE, with the directories, the
--                  cgroups and the pid files, and Command/Search is init
--   Exit           public/cmd/root.go, ExitCode, and the version and the end of mainc
--   Supervisor     public/lobby/lobby.go, Run: `round` is one turn of the loop, `supervise` the loop
--                  over a list of what happened
--   Program        Supervisor, Archive and Lobby/Life together: Run and runc over the lobbies, one after
--                  another, with the status files that each finds and the options that --flagdir
--                  changes. Orders follows an order in --specdir to the exit code, Ends is about
--                  lobbies that end too soon, and Main is RunE with the loop, from the flags and
--                  the environment to the exit code
--   Archive        `runc` of public/lobby/lobby.go and writeMatchFile of internal/lobby/collect.go, as
--                  traces of what is done to the files, with the errors that the code ignores
--   Watch          internal/watch/watch.go: Filters are LockNames, LastNames and SameNames; Walk is Watch
--                  up to its goroutine, and Loop is the goroutine, with `wrap` and `apply`, over a list
--                  of what `select` received
--   Lobby          internal/lobby/lobby.go: the state. Stop is Cancel, Stat is stat.go, Collect is
--                  `collect` of collect.go, Bolt, Blob and Line are filterbolt, filterjson and filter
--                  of scan.go, Watcher is internal/lobby/watch.go, and Life is alloc, runc and Run,
--                  over everything that the goroutines do, one handler after another. Alloc is
--                  what alloc prepares for the process, and what it and runc open and close. Scanner is
--                  the goroutine of scan.go, and Collector that of collect.go with the record of
--                  internal/sync/sync.go
--   Examples       runs of the definitions, and each theorem at an input
--
-- How the code is carried over. A method on a pointer is a function from the state before it to the state
-- after it. A run-time panic (an index out of range, a nil pointer, a channel closed twice) is none. A
-- goroutine that loops over a `select` is a function on the list of what it received, in any order; a
-- deferred call comes where the function returns. What the goroutine of --flagdir reads while RunE goes on
-- counts as read after it; what `opts.Watch` itself reads comes before. The calls of the two scanners that
-- close their ends of the pipes are interleaved by any schedule. Bytes are natural numbers, int64 and
-- durations are integers; where ParseInt saturates the bounds of int64 are written out. A time is the
-- number of nanoseconds since Go's zero time, and a handler reads the clock once. The pointer to the admin
-- is the id of the player, which no code changes. The locks are left out: a handler is one step.
--
-- There is fuel in two places. The decimal printer of Base/Decimal has one unit more than the number that
-- it prints and needs one per digit (`decimal-value` there reads the number back). The loop of Watch over
-- the paths that it finds has a number of rounds as its argument; Watch/Walk/Ends says how many are enough.
-- Every other loop recurses on its list or its text.
--
-- What comes from elsewhere is a parameter: encoding/json, net/url, fmt, time.Parse, time.ParseDuration,
-- the format of a time, strconv.AppendFloat, filepath.Join, WalkDir, Glob and EvalSymlinks as functions,
-- float64 as a type with its zero and its subtraction, the set of operations of fsnotify, whether gopsutil
-- finds a process, and what the operating system refuses. The laws that are assumed of these are hypotheses of the theorems that
-- need them: the order in which WalkDir visits a tree, that EvalSymlinks returns absolute paths, how many
-- digits AppendFloat prints, that a directory is there once it was made, and stays, and that it cannot be
-- written as a file. The busy and idle pid files are taken to lie outside of --statdir.
--
-- Not modelled: how pflag parses, the help texts for cobra, the signals and the random seed of mainc, the
-- debug log, the size of the pipes on Linux, and what is not Go: hack, etc and the units of systemd.
pub mod Base
pub mod Errors
pub mod Players
pub mod Log
pub mod Match
pub mod Spec
pub mod Options
pub mod Exit
pub mod Command
pub mod Supervisor
pub mod Archive
pub mod Program
pub mod Watch
pub mod Lobby
pub mod Examples

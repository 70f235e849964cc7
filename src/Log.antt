-- ===== src/Log.antt =====
-- The lines of the logs (internal/log/log.go, Logv). What `uptime` prints is a parameter: it formats a
-- float64. A slice that may be nil is an Option, none for nil; a call of Logv is the list of its writes.
pub mod Framing
pub mod Uptime
use snap_gs.Base.{
  ℕ, ◌+◌, ltb, ◌==◌, Bytes, codes, Bool, true, false, not, ◌&&◌, List, [], ◌∷◌, ◌++◌, Option, none,
  some, if◌then◌else◌, length, take, drop,
}

-- Two bytes; those of `Line` are zero.
pub record Prefix : Type 0 where
  pub first : ℕ
  pub second : ℕ

abbrev pub is_line : Prefix → Bool
is_line p = p.first == 0 && p.second == 0

abbrev pub bytes_of : Option Bytes → Bytes
bytes_of none = []
bytes_of (some bs) = bs

-- `copy` onto bytes that are there.
unfoldable pub copy_over : Bytes → Bytes → Bytes
copy_over old [] = old
copy_over [] (c ∷ new) = []
copy_over (d ∷ old) (c ∷ new) = c ∷ copy_over old new

-- `buf[0:19]`.
unfoldable pub head_of : Prefix → Bytes → Bytes
unfolding copy_over
head_of p uptime = p.first ∷ p.second ∷ 32 ∷ copy_over (codes "0.000000000000s") uptime ++ 32 ∷ []

-- `buf[i:19]`, where `i` is 19 for a plain line.
unfoldable pub front : Prefix → Bytes → Bytes
unfolding head_of
front p uptime = if is_line p then [] else head_of p uptime

abbrev pub new_line : Bytes
new_line = 10 ∷ []

abbrev pub buffer_size : ℕ
buffer_size = 1024

-- A line of one chunk that fits the buffer.
unfoldable pub fits : List (Option Bytes) → Bool
fits [] = false
fits (chunk ∷ []) =
    not (length (bytes_of chunk) == 0) && ltb (19 + length (bytes_of chunk)) buffer_size
fits (chunk ∷ other ∷ rest) = false

abbrev pub add_chunk : Bytes → List Bytes → List Bytes
add_chunk [] later = later
add_chunk (c ∷ bs) later = (c ∷ bs) ∷ later

-- The writes of the chunks, and whether the last one is there.
unfoldable pub chunks : List (Option Bytes) → List Bytes
chunks [] = []
chunks (chunk ∷ rest) = add_chunk (bytes_of chunk) (chunks rest)

abbrev pub is_present : Option Bytes → Bool
is_present none = false
is_present (some _) = true

unfoldable pub ends_present : List (Option Bytes) → Bool
ends_present [] = false
ends_present (chunk ∷ []) = is_present chunk
ends_present (chunk ∷ other ∷ rest) = ends_present (other ∷ rest)

abbrev pub all_bytes : List (Option Bytes) → Bytes
all_bytes [] = []
all_bytes (chunk ∷ rest) = bytes_of chunk ++ all_bytes rest

-- A line in one write: the newline goes into the buffer behind the chunk, and none is the run-time panic
-- where that is out of the buffer.
unfoldable pub at_once : Prefix → Bytes → Bytes → Option (List Bytes)
unfolding front
at_once p uptime bs =
    if ltb (19 + length bs) buffer_size
    then some ((front p uptime ++ (bs ++ new_line)) ∷ [])
    else none

-- A line in several writes.
unfoldable pub by_parts : Prefix → Bytes → List (Option Bytes) → List Bytes
unfolding front chunks ends_present
by_parts p uptime iov =
    (if is_line p then [] else front p uptime ∷ [])
    ++ (chunks iov ++ (if ends_present iov then new_line ∷ [] else []))

abbrev pub is_empty : List (Option Bytes) → Bool
is_empty [] = true
is_empty (_ ∷ _) = false

-- The writes of `Logv`.
unfoldable pub logv : Prefix → Bytes → List (Option Bytes) → Option (List Bytes)
unfolding front fits at_once by_parts
logv p uptime iov =
    if is_empty iov
    then some ((front p uptime ++ new_line) ∷ [])
    else if fits iov
    then at_once p uptime (all_bytes iov)
    else some (by_parts p uptime iov)

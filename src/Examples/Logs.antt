-- ===== src/Examples/Logs.antt =====
-- Lines of the logs (internal/log/log.go).
use snap_gs.Base.{◌≡◌, refl, Bytes, codes, List, [], ◌∷◌, ◌++◌, Option, none, some}
use snap_gs.Log.{Prefix, copy_over, head_of, front, new_line, fits, all_bytes, logv}
use snap_gs.Log.Framing.{written, closing, logv-written}

abbrev error_mark : Prefix
error_mark = record { first = 69; second = 69 }

abbrev parts : List (Option Bytes)
parts = some (codes "lobby ") ∷ none ∷ some (codes "done") ∷ []

parts_written :
    logv error_mark (codes "1m02.000000000s") parts
    ≡ some (codes "EE 1m02.000000000s " ∷ codes "lobby " ∷ codes "done" ∷ new_line ∷ [])
unfolding logv head_of copy_over front fits
parts_written = refl

short_uptime : head_of error_mark (codes "7s") ≡ codes "EE 7s000000000000s "
unfolding head_of copy_over
short_uptime = refl

logv-written_example :
    (writes : List Bytes) × (logv error_mark (codes "1m02.000000000s") parts ≡ some writes)
    × (written writes
        ≡ front error_mark (codes "1m02.000000000s") ++ (all_bytes parts ++ closing parts))
logv-written_example = logv-written error_mark (codes "1m02.000000000s") parts

-- ===== src/Examples/Walks.antt =====
-- A watch of a directory with a link to another one (internal/watch/watch.go, Watch).
use snap_gs.Base.{
  ℕ, ◌≡◌, refl, inl, inr, pos, Bytes, codes, List, [], ◌∷◌, ◌++◌, none, some, if◌then◌else◌,
  bytes_eq, bytes_eq_iff, bytes_key, Bool-cases, has_suffix, trim_prefix, has_prefix, length, ◌+◌,
}
use snap_gs.Base.GoMap.{lookup, insert}
use snap_gs.Errors.{other}
use snap_gs.Watch.Loop.{split_path, event_name}
use snap_gs.Watch.Walk.{
  regular, directory, symlink, Visit, found, Table, next, target, unresolved, slash, is_bad, is_cut,
  out_name, dir_name, System, walk, first_table, Request, Opened, watch,
}
use snap_gs.Watch.Walk.Names.{IsFileTree}
use snap_gs.Watch.Walk.Ends.{LeadsTo, watch_ends}
use snap_gs.Watch.Walk.Heard.Events.{walk_hears}

abbrev spec_dir : Bytes
spec_dir = codes "/s"

abbrev peer_dir : Bytes
peer_dir = codes "/p"

abbrev spec_visits : List Visit
spec_visits =
    found (codes "/s") directory
    ∷ found (codes "/s/peer") symlink
    ∷ found (codes "/s/up") regular
    ∷ []

abbrev peer_visits : List Visit
peer_visits = found (codes "/p") directory ∷ found (codes "/p/idle") regular ∷ []

abbrev sys : System
sys = record {
  list = λ p.
      if bytes_eq p spec_dir then spec_visits else if bytes_eq p peer_dir then peer_visits else [];
  resolve = λ p. if bytes_eq p (codes "/s/peer") then target peer_dir else unresolved (other 2);
  refuses = λ p. none;
}

abbrev create : ℕ
create = 1

abbrev table : Table ℕ
table = record {
  watches = (codes "/s/", codes "/s/") ∷ (codes "/p/", codes "/s/peer/") ∷ [];
  events = record { name = codes "up"; op = 1 } ∷ record { name = codes "peer/idle"; op = 1 } ∷ [];
  queue = [];
  watched = codes "/s" ∷ codes "/p" ∷ [];
}

table-walked :
    walk create sys (codes "/s/") 3 (first_table create sys (codes "/s/") spec_dir)
    ≡ some (next table)
unfolding walk is_bad is_cut dir_name out_name split_path lookup insert bytes_eq has_suffix
    trim_prefix has_prefix
table-walked = refl

sys-LeadsTo : LeadsTo sys (peer_dir ∷ [])
unfolding bytes_eq
sys-LeadsTo p out h = elim (Bool-cases (bytes_eq p (codes "/s/peer"))) [
  | inl same ↦
      let e : target peer_dir ≡ target out = rw same at h in
      let f : peer_dir ≡ out = cc in rw (← f) refl
  | inr differs ↦ let e : unresolved (other 2) ≡ target out = rw differs at h in cc
]

abbrev request : Request
request = record {
  path = spec_dir;
  tick = pos 250000000;
  filters = 4;
  context_error = none;
  absolute = target spec_dir;
  watcher_error = none;
}

watch_ends_example :
    (o : Opened ℕ) × (watch create sys (length (peer_dir ∷ []) + 2) request ≡ some o)
watch_ends_example = watch_ends create sys (peer_dir ∷ []) sys-LeadsTo request

sys-IsFileTree : IsFileTree sys
unfolding bytes_eq is_bad is_cut has_suffix split_path
sys-IsFileTree = record {
  ordered = λ p whole. elim (Bool-cases (bytes_eq p spec_dir)) [
    | inl same ↦
        rw ((bytes_eq_iff p spec_dir).0 same)
          (refl, inl refl, (refl, inr refl, (refl, inr refl, tt)))
    | inr first ↦ elim (Bool-cases (bytes_eq p peer_dir)) [
      | inl same ↦ rw ((bytes_eq_iff p peer_dir).0 same) (refl, inl refl, (refl, inr refl, tt))
      | inr second ↦ rw (first, second) tt
    ]
  ];
  absolute = λ p out h good. elim (Bool-cases (bytes_eq p (codes "/s/peer"))) [
    | inl same ↦
        let e : target peer_dir ≡ target out = rw same at h in
        let f : peer_dir ≡ out = cc in rw (← f) refl
    | inr differs ↦ let e : unresolved (other 2) ≡ target out = rw differs at h in cc
  ];
}

walk_hears_example :
    (name : Bytes) × (alias : Bytes) × (event_name table.watches
        (codes "/s/")
        (codes "/p" ++ b'/' ∷ codes "idle")
      ≡ some name)
    × (lookup (codes "/p" ++ slash) table.watches ≡ some alias)
    × (codes "/s/" ++ name ≡ alias ++ codes "idle")
unfolding bytes_eq is_bad is_cut has_suffix split_path
walk_hears_example =
    walk_hears spec_dir create sys sys-IsFileTree 3 table (codes "/p") b'i' (codes "dle") refl
      table-walked refl refl

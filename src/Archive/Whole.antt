-- ===== src/Archive/Whole.antt =====
-- A file appears under its own name when it is whole (public/lobby/lobby.go, runc;
-- internal/lobby/collect.go, writeMatchFile).
use snap_gs.Base.{
  ◌≡◌, Bytes, Bool, true, false, not, ◌&&◌, ◌||◌, List, [], ◌∷◌, Option, none, some, if◌then◌else◌,
  is_nil, is_some, bytes_eq, bytes_eq_iff, arith,
}
use snap_gs.Errors.{Err}
use snap_gs.Options.{Options, validate}
use snap_gs.Lobby.Collector.{Meta}
use snap_gs.Archive.{
  Deed, Endings, created, log_created, wrote, flushed, closed, log_closed, tagged, renamed,
  ran_alone, ran_logged, has_run, Marshalled, text, refused, lock_of, write_match_file, log_meta,
  Answers, archive_of, runc,
}

-- The files: the archive and its compressor, whether both were closed without an error, the plain log,
-- whether the attribute was tried to be set, the attribute that the archive has, and the name under which
-- it is found, where there is one.
pub record Sheets : Type 0 where
  pub is_open : Bool
  pub compresses : Bool
  pub is_sealed : Bool
  pub log_open : Bool
  pub tag_tried : Bool
  pub attribute : Option Bytes
  pub name : Option Bytes

abbrev pub blank : Sheets
blank = record {
  is_open = false;
  compresses = false;
  is_sealed = false;
  log_open = false;
  tag_tried = false;
  attribute = none;
  name = none;
}

-- An archive that is closed: it has its attribute where that could be set, and its own name where it could
-- be renamed.
abbrev pub published : Bytes → Bytes → Endings → Sheets
published file meta ends = record {
  is_open = false;
  compresses = false;
  is_sealed = not (is_some ends.flush_error) && not (is_some ends.close_error);
  log_open = false;
  tag_tried = true;
  attribute = if is_some ends.tag_error then none else some meta;
  name = some (if is_some ends.rename_error then lock_of file else file);
}

abbrev pub is_at : Bytes → Option Bytes → Bool
is_at path none = false
is_at path (some name) = bytes_eq name path

-- One deed, none where it comes out of order: a file is created once, is written while its compressor
-- is open, is closed after its compressor, is tagged when it is closed, and is renamed last. What cannot be
-- closed well is closed all the same. A lobby runs with both log files open, or with none.
abbrev pub perform : Deed → Sheets → Option Sheets
perform (created lock) s =
    if is_some s.name
    then none
    else some (record s { is_open = true; compresses = true; tag_tried = false; name = some lock })
perform (log_created path) s = if s.log_open then none else some (record s { log_open = true })
perform (wrote content) s = if s.compresses then some s else none
perform (flushed e) s =
    if s.compresses
    then some (record s { compresses = false; is_sealed = not (is_some e) })
    else none
perform (closed e) s =
    if s.is_open && not s.compresses
    then some (record s { is_open = false; is_sealed = s.is_sealed && not (is_some e) })
    else none
perform (log_closed e) s = if s.log_open then some (record s { log_open = false }) else none
perform (tagged lock meta e) s =
    if s.is_open || s.compresses || not (is_at lock s.name)
    then none
    else some
        (record s { tag_tried = true; attribute = if is_some e then s.attribute else some meta })
perform (renamed lock file e) s =
    if s.is_open || s.compresses || not s.tag_tried || not (is_at lock s.name)
    then none
    else some (record s { name = if is_some e then s.name else some file })
perform ran_alone s = if s.is_open || s.log_open then none else some s
perform ran_logged s = if s.compresses && s.log_open then some s else none

abbrev pub performs : List Deed → Sheets → Option Sheets
performs [] s = some s
performs (x ∷ xs) s = elim (perform x s) [ none ↦ none | some s' ↦ performs xs s' ]

abbrev pub error_of : Marshalled → Option Err
error_of (text s) = none
error_of (refused e) = some e

abbrev pub first_error : List (Option Err) → Option Err
first_error [] = none
first_error (none ∷ es) = first_error es
first_error (some e ∷ es) = some e

-- What is left when the file could be created, and when it could not.
abbrev pub left_by : Bytes → Marshalled → Option Err → Endings → Sheets
left_by file (refused e) create_error ends = blank
left_by file (text meta) (some e) ends = blank
left_by file (text meta) none ends = published file meta ends

-- writeMatchFile returns its first error, but for those of its deferred calls, which it ignores. When the
-- file could be created it is closed before it is tagged and tagged before it is renamed, even where its
-- content could not be written: it has its own name where Rename succeeds and ends in `.lock` where not,
-- it has its attribute where that could be set, and it is sealed where both ends were closed without an
-- error. Otherwise no file is left.
pub write_match_file-published :
    (file : Bytes) (meta : Marshalled) (create_error : Option Err) (content : Marshalled)
    (write_error : Option Err) (ends : Endings)
    → let (deeds, result) = write_match_file file meta create_error content write_error ends in
      (performs deeds blank ≡ some (left_by file meta create_error ends))
      × (result ≡ first_error (error_of meta ∷ create_error ∷ error_of content ∷ write_error ∷ []))
unfolding write_match_file
write_match_file-published file meta create_error content write_error ends =
    (ground (arith, bytes_eq_iff (lock_of file) (lock_of file)), ground arith)

-- What a run leaves: the archived log, where there is a --logdir and the archive could be created.
abbrev pub left_in : Bytes → Bytes → Marshalled → Option Err → Endings → Sheets
left_in [] file meta create_error ends = blank
left_in (c ∷ dir) file meta create_error ends = left_by file meta create_error ends

abbrev pub left_after : Option Err → Bytes → Bytes → Marshalled → Option Err → Endings → Sheets
left_after (some e) dir file meta create_error ends = blank
left_after none dir file meta create_error ends = left_in dir file meta create_error ends

module _ (marshal : Meta → Marshalled) (join : Bytes → Bytes → Bytes) where
  -- What can keep a lobby from being run, in order.
  abbrev pub obstacles : Options → Answers → List (Option Err)
  obstacles o a =
      validate o
      ∷ error_of (marshal (log_meta o.session))
      ∷ (if is_nil o.log_dir then none else a.archive_error)
      ∷ (if is_nil o.log_dir then none else a.log_error)
      ∷ []

  abbrev pub or_error : Option Err → Option Err → Option Err
  or_error none result = result
  or_error (some e) result = some e

  -- runc validates the options and prepares the log files before it runs a lobby; it returns the first
  -- error of these, without a run, or what the lobby returned. While the lobby runs both log files are
  -- open, where there is a --logdir. At the end they are closed, and the archive, if it could be
  -- created, was closed before it was tagged and tagged before it was renamed: it has its attribute and its
  -- own name where these calls succeed, whose errors runc ignores.
  pub runc-published :
      (o : Options) (a : Answers)
      → let (deeds, result) = runc marshal join o a in
        (result ≡ or_error (first_error (obstacles o a)) a.result)
        × (has_run deeds ≡ not (is_some (first_error (obstacles o a))))
        × (performs deeds blank
            ≡ some (
                left_after
                  (validate o)
                  o.log_dir
                  (archive_of marshal join o a)
                  (marshal (log_meta o.session))
                  a.archive_error
                  a.endings))
  unfolding runc
  runc-published o a = (
    ground arith,
    ground arith,
    ground (
      arith,
      bytes_eq_iff (lock_of (archive_of marshal join o a)) (lock_of (archive_of marshal join o a)),
    ),
  )

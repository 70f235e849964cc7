-- ===== src/Archive.antt =====
-- The files that are written under a name that ends in `.lock` and renamed when they are whole: the logs
-- of a lobby (public/lobby/lobby.go, runc) and the matches (internal/lobby/collect.go,
-- writeMatchFile). The answers of the system, json.Marshal and filepath.Join are inputs. A trace lists
-- what is done to the files, in order; the deferred calls run from the last to the first.
pub mod Whole
use snap_gs.Base.{
  ◌==◌, Bytes, Bool, true, false, codes, List, [], ◌∷◌, ◌++◌, map, Option, none, some,
  if◌then◌else◌,
}
use snap_gs.Errors.{Err}
use snap_gs.Options.{Options, validate}
use snap_gs.Lobby.Collector.{Meta}

-- `created`, `closed`, `tagged` and `renamed` are about the file that is archived, through a compressor
-- that is opened with it and that `flushed` closes. An error beside a deed is what its call returns.
-- `wrote` writes to it. The plain log beside it is `log_created` and `log_closed`. `ran` is a run of a
-- lobby, with its log files or without them.
pub data Deed : Type 0 where
  created log_created : Bytes → Deed
  wrote : Bytes → Deed
  flushed closed log_closed : Option Err → Deed
  tagged : Bytes → Bytes → Option Err → Deed
  renamed : Bytes → Bytes → Option Err → Deed
  ran_alone ran_logged : Deed

-- Whether a lobby is run.
abbrev pub has_run : List Deed → Bool
has_run [] = false
has_run (ran_alone ∷ ds) = true
has_run (ran_logged ∷ ds) = true
has_run (_ ∷ ds) = has_run ds

pub data Marshalled : Type 0 where
  text : Bytes → Marshalled
  refused : Err → Marshalled

abbrev pub lock_of : Bytes → Bytes
lock_of file = file ++ codes ".lock"

-- What the deferred calls return; the code ignores it.
pub record Endings : Type 0 where
  pub flush_error : Option Err
  pub close_error : Option Err
  pub tag_error : Option Err
  pub rename_error : Option Err

-- The deferred calls of a file that was created.
abbrev pub release : Bytes → Bytes → Endings → List Deed
release file meta ends =
    flushed ends.flush_error
    ∷ closed ends.close_error
    ∷ tagged (lock_of file) meta ends.tag_error
    ∷ renamed (lock_of file) file ends.rename_error
    ∷ []

-- `writeMatchFile`, on the JSON of the attribute and of the match, the error of `os.Create` and that of
-- the write.
abbrev pub write_content : Bytes → Marshalled → Option Err → List Deed × Option Err
write_content file (refused e) write_error = ([], some e)
write_content file (text content) write_error = (wrote content ∷ [], write_error)

abbrev pub write_created :
    Bytes → Bytes → Option Err → Marshalled → Option Err → Endings → List Deed × Option Err
write_created file meta (some e) content write_error ends = ([], some e)
write_created file meta none content write_error ends =
    let (deeds, result) = write_content file content write_error in
    (created (lock_of file) ∷ deeds ++ release file meta ends, result)

unfoldable pub write_match_file :
    Bytes → Marshalled → Option Err → Marshalled → Option Err → Endings → List Deed × Option Err
write_match_file file (refused e) create_error content write_error ends = ([], some e)
write_match_file file (text meta) create_error content write_error ends =
    write_created file meta create_error content write_error ends

-- The attribute of the log of a lobby.
unfoldable pub log_meta : Bytes → Meta
log_meta session = record {
  content_type = codes "text/plain";
  content_disposition = codes "inline";
  content_language = codes "en-US";
  content_encoding = codes "gzip";
  metadata = (codes "lobby", session) ∷ [];
}

-- What `runc` of the supervisor meets: the time as RFC 3339 writes it, the errors of its two calls of
-- `os.Create` and of its deferred calls, and what the run of the lobby returns.
pub record Answers : Type 0 where
  pub stamp : Bytes
  pub archive_error : Option Err
  pub log_error : Option Err
  pub log_close_error : Option Err
  pub endings : Endings
  pub result : Option Err

-- `strings.ReplaceAll(ts, ":", "_")`.
abbrev pub no_colons : Bytes → Bytes
no_colons s = map (λ c. if c == b':' then b'_' else c) s

module _ (marshal : Meta → Marshalled) (join : Bytes → Bytes → Bytes) where
  abbrev pub archive_of : Options → Answers → Bytes
  archive_of o a = join o.log_dir (no_colons a.stamp ++ codes "-lobby.log.gz")

  -- With the plain log, once the archive is there.
  abbrev pub with_log : Options → Answers → Option Err → List Deed × Option Err
  with_log o a (some e) = ([], some e)
  with_log o a none = (
    log_created (join o.log_dir (codes "lobby.log"))
        ∷ ran_logged
        ∷ log_closed a.log_close_error
        ∷ [],
    a.result,
  )

  abbrev pub with_archive : Options → Answers → Bytes → Option Err → List Deed × Option Err
  with_archive o a meta (some e) = ([], some e)
  with_archive o a meta none =
      let file = archive_of o a in
      let (deeds, result) = with_log o a a.log_error in
      (created (lock_of file) ∷ deeds ++ release file meta a.endings, result)

  abbrev pub with_dir : Options → Answers → Bytes → Bytes → List Deed × Option Err
  with_dir o a meta [] = (ran_alone ∷ [], a.result)
  with_dir o a meta (c ∷ dir) = with_archive o a meta a.archive_error

  abbrev pub with_meta : Options → Answers → Marshalled → List Deed × Option Err
  with_meta o a (refused e) = ([], some e)
  with_meta o a (text meta) = with_dir o a meta o.log_dir

  abbrev pub when_valid : Options → Answers → Option Err → List Deed × Option Err
  when_valid o a (some e) = ([], some e)
  when_valid o a none = with_meta o a (marshal (log_meta o.session))

  unfoldable pub runc : Options → Answers → List Deed × Option Err
  runc o a = when_valid o a (validate o)

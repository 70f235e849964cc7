-- ===== src/Command/Search.antt =====
-- The search for the default executable (public/cmd/lobby.go, init). filepath.Glob is a parameter.
use snap_gs.Base.{◌≡◌, refl, ap, sym, ◌∙◌, Bytes, codes, List, [], ◌∷◌, ◌++◌}

-- `runtime.GOOS`.
pub data Goos : Type 0 where
  linux windows other : Goos

abbrev pub linux_tails : List Bytes
linux_tails =
    codes "/snapshot*.x86_64"
    ∷ codes "/snapshot*/snapshot*.x86_64"
    ∷ codes "/steamapps/common/Snapshot VR Dedicated Server/snapshot*.x86_64"
    ∷ codes "/steamapps/common/Snapshot VR Dedicated Server/snapshot*/snapshot*.x86_64"
    ∷ codes "/Steam/steamapps/common/Snapshot VR Dedicated Server/snapshot*.x86_64"
    ∷ codes "/Steam/steamapps/common/Snapshot VR Dedicated Server/snapshot*/snapshot*.x86_64"
    ∷ codes "/.steam/steamapps/common/Snapshot VR Dedicated Server/snapshot*.x86_64"
    ∷ codes "/.steam/steamapps/common/Snapshot VR Dedicated Server/snapshot*/snapshot*.x86_64"
    ∷ codes "/.steam/root/steamapps/common/Snapshot VR Dedicated Server/snapshot*.x86_64"
    ∷ codes "/.steam/root/steamapps/common/Snapshot VR Dedicated Server/snapshot*/snapshot*.x86_64"
    ∷ codes "/.steam/steam/steamapps/common/Snapshot VR Dedicated Server/snapshot*.x86_64"
    ∷ codes "/.steam/steam/steamapps/common/Snapshot VR Dedicated Server/snapshot*/snapshot*.x86_64"
    ∷ codes
        "/.steam/debian-installation/steamapps/common/Snapshot VR Dedicated Server/snapshot*.x86_64"
    ∷ codes
        "/.steam/debian-installation/steamapps/common/Snapshot VR Dedicated Server/snapshot*/snapshot*.x86_64"
    ∷ []

abbrev pub windows_tails : List Bytes
windows_tails =
    codes "\\SnapshotVR.exe"
    ∷ codes "\\steamapps\\common\\Snapshot VR\\SnapshotVR.exe"
    ∷ codes "\\Program Files*\\steam\\steamapps\\common\\Snapshot VR\\SnapshotVR.exe"
    ∷ []

-- `heads`, of the variable HOME or SYSTEMDRIVE.
abbrev pub heads : Bytes → List Bytes
heads [] = codes "." ∷ []
heads (c ∷ home) = (c ∷ home) ∷ codes "." ∷ []

module _ (glob : Bytes → List Bytes) where
  -- The loops, each of which ends once the executable is known.
  unfoldable pub among_matches : Bytes → List Bytes → Bytes
  among_matches (c ∷ exe) matches = c ∷ exe
  among_matches [] [] = []
  among_matches [] (m ∷ matches) = among_matches m matches

  unfoldable pub among_tails : Bytes → Bytes → List Bytes → Bytes
  unfolding among_matches
  among_tails (c ∷ exe) head tails = c ∷ exe
  among_tails [] head [] = []
  among_tails [] head (tail ∷ tails) =
      among_tails (among_matches [] (glob (head ++ tail))) head tails

  unfoldable pub among_heads : Bytes → List Bytes → List Bytes → Bytes
  unfolding among_tails
  among_heads (c ∷ exe) hs tails = c ∷ exe
  among_heads [] [] tails = []
  among_heads [] (head ∷ hs) tails = among_heads (among_tails [] head tails) hs tails

  -- `init`, on the executable that the build has set, if any, and on the two variables.
  unfoldable pub default_exe : Goos → Bytes → Bytes → Bytes → Bytes
  unfolding among_heads
  default_exe linux home drive exe = among_heads exe (heads home) linux_tails
  default_exe windows home drive exe = among_heads exe (heads drive) windows_tails
  default_exe other home drive exe = exe

  -- The first text that is not empty.
  abbrev pub first_filled : List Bytes → Bytes
  first_filled [] = []
  first_filled ([] ∷ ms) = first_filled ms
  first_filled ((c ∷ m) ∷ ms) = c ∷ m

  -- All matches, in the order of the directories and then of the patterns.
  abbrev pub of_tails : Bytes → List Bytes → List Bytes
  of_tails head [] = []
  of_tails head (tail ∷ tails) = glob (head ++ tail) ++ of_tails head tails

  abbrev pub all_matches : List Bytes → List Bytes → List Bytes
  all_matches [] tails = []
  all_matches (head ∷ hs) tails = of_tails head tails ++ all_matches hs tails

  among_matches-first :
      (exe : Bytes) (ms : List Bytes) → among_matches exe ms ≡ first_filled (exe ∷ ms)
  unfolding among_matches
  among_matches-first (c ∷ exe) ms = refl
  among_matches-first [] [] = refl
  among_matches-first [] (m ∷ ms) = among_matches-first m ms

  -- A search through two lists is one through the second, from what the first gave.
  first_filled-append :
      (xs ys : List Bytes) → first_filled (xs ++ ys) ≡ first_filled (first_filled xs ∷ ys)
  first_filled-append [] ys = refl
  first_filled-append ([] ∷ xs) ys = first_filled-append xs ys
  first_filled-append ((c ∷ x) ∷ xs) ys = refl

  among_tails-first :
      (exe head : Bytes) (tails : List Bytes)
      → among_tails exe head tails ≡ first_filled (exe ∷ of_tails head tails)
  unfolding among_tails
  among_tails-first (c ∷ exe) head tails = refl
  among_tails-first [] head [] = refl
  among_tails-first [] head (tail ∷ tails) =
      among_tails-first (among_matches [] (glob (head ++ tail))) head tails
      ∙ ap (λ e. first_filled (e ∷ of_tails head tails))
          (among_matches-first [] (glob (head ++ tail)))
      ∙ sym (first_filled-append (glob (head ++ tail)) (of_tails head tails))

  among_heads-first :
      (exe : Bytes) (hs tails : List Bytes)
      → among_heads exe hs tails ≡ first_filled (exe ∷ all_matches hs tails)
  unfolding among_heads
  among_heads-first (c ∷ exe) hs tails = refl
  among_heads-first [] [] tails = refl
  among_heads-first [] (head ∷ hs) tails =
      among_heads-first (among_tails [] head tails) hs tails
      ∙ ap (λ e. first_filled (e ∷ all_matches hs tails)) (among_tails-first [] head tails)
      ∙ sym (first_filled-append (of_tails head tails) (all_matches hs tails))

  abbrev pub searched : Goos → Bytes → Bytes → List Bytes
  searched linux home drive = all_matches (heads home) linux_tails
  searched windows home drive = all_matches (heads drive) windows_tails
  searched other home drive = []

  -- The default executable is the one that the build has set, or else the first match of a pattern in
  -- the home directory (on Windows the system drive) and then in the working directory, in the order of
  -- the patterns, and is empty where nothing matches.
  pub default_exe-first :
      (os : Goos) (home drive exe : Bytes)
      → default_exe os home drive exe ≡ first_filled (exe ∷ searched os home drive)
  unfolding default_exe
  default_exe-first linux home drive exe = among_heads-first exe (heads home) linux_tails
  default_exe-first windows home drive exe = among_heads-first exe (heads drive) windows_tails
  default_exe-first other home drive [] = refl
  default_exe-first other home drive (c ∷ exe) = refl

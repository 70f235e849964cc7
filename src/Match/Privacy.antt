-- ===== src/Match/Privacy.antt =====
-- What the two files of a match hold (internal/match/match.go, as internal/lobby/collect.go writes
-- them): the second one names nobody.
use snap_gs.Base.{◌≡◌, refl, ap, Bytes, List, [], ◌∷◌, map}
use snap_gs.Match.{Floats, Kill, Match, normalize, anonymize, shift, unnamed}

-- Other names and ids for the players of a kill.
pub record Identity : Type 0 where
  pub shooter_id : Bytes
  pub shooter_name : Bytes
  pub enemy_id : Bytes
  pub enemy_name : Bytes

module _ {F : Type 0} where
  abbrev pub rename : (Kill F → Identity) → Kill F → Kill F
  rename who k = record k {
    shooter_id = (who k).shooter_id;
    shooter_name = (who k).shooter_name;
    enemy_id = (who k).enemy_id;
    enemy_name = (who k).enemy_name;
  }

  -- The same match played by others, on another server version, under another match id.
  abbrev pub disguise : (Kill F → Identity) → Bytes → Bytes → Match F → Match F
  disguise who id version m = record m {
    kill_data = map (rename who) m.kill_data;
    match_id = id;
    version = version;
  }

  unnamed-rename :
      (who : Kill F → Identity) (ks : List (Kill F))
      → map unnamed (map (rename who) ks) ≡ map unnamed ks
  unfolding unnamed
  unnamed-rename who [] = refl
  unnamed-rename who (k ∷ ks) = ap (◌∷◌ (unnamed k)) (unnamed-rename who ks)

  unnamed-unnamed : (ks : List (Kill F)) → map unnamed (map unnamed ks) ≡ map unnamed ks
  unfolding unnamed
  unnamed-unnamed [] = refl
  unnamed-unnamed (k ∷ ks) = ap (◌∷◌ (unnamed k)) (unnamed-unnamed ks)

  -- The anonymized match does not depend on who played, on the match id or on the version.
  pub anonymize-disguise :
      (who : Kill F → Identity) (id version : Bytes) (m : Match F)
      → anonymize (disguise who id version m) ≡ anonymize m
  unfolding anonymize
  anonymize-disguise who id version m =
      ap (λ ks. record m { kill_data = ks; match_id = []; version = [] })
        (unnamed-rename who m.kill_data)

module _ {F : Type 0} (floats : Floats F) where
  open floats use {zero, sub}

  shift-unnamed :
      (start : F) (ks : List (Kill F))
      → map unnamed (map (shift floats start) ks) ≡ map (shift floats start) (map unnamed ks)
  unfolding unnamed shift
  shift-unnamed start [] = refl
  shift-unnamed start (k ∷ ks) = ap (◌∷◌ (unnamed (shift floats start k))) (shift-unnamed start ks)

  -- The two passes may run in either order.
  pub anonymize-normalize :
      (m : Match F) → anonymize (normalize floats m) ≡ normalize floats (anonymize m)
  unfolding anonymize normalize
  anonymize-normalize m =
      ap (λ ks. record m { kill_data = ks; match_id = []; version = []; match_start_time = zero })
        (shift-unnamed m.match_start_time m.kill_data)

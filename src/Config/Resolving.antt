-- ===== src/Config/Resolving.antt =====
-- What the settings page shows.
use text.Mathlib.Text.{◌==◌}
use agentic_hive.Prelude.{
  String, ◌≡◌, refl, inl, inr, true, false, not, some, List, [], ◌∷◌, arith, if◌then◌else◌, lookup,
  eq_iff, Bool-cases,
}
use Prim.Native.String.{◌++◌}
use agentic_hive.Http.{is_empty, or_empty}
use agentic_hive.Config.{
  SettingDef, SettingValue, SettingSource, source_env, source_db, source_default, resolve,
  resolve_group,
}

-- The first of three texts that is not empty.
abbrev pub effective : (env_val db_val default : String) → String
effective env_val db_val default =
    if not (is_empty env_val) then env_val else if not (is_empty db_val) then db_val else default

abbrev pub origin : (env_val db_val : String) → SettingSource
origin env_val db_val =
    if not (is_empty env_val)
    then source_env
    else if not (is_empty db_val)
    then source_db
    else source_default

-- A plain setting shows its text; a secret shows only whether there is one.
abbrev pub Shows : SettingDef → (text : String) → SettingSource → SettingValue → Type 0
Shows def text source sv =
    (sv.source ≡ source)
    × (def.is_secret ≡ false → sv.value ≡ text)
    × (def.is_secret ≡ true → (sv.value ≡ "") × (sv.is_set ≡ not (is_empty text)))

resolve-Shows :
    (def : SettingDef) (e d : String)
    → Shows def (effective e d def.default_value) (origin e d) (resolve def e d)
resolve-Shows def e d = ground arith

-- Every setting of a group is shown with the first of environment, database and default that is not
-- empty, and with where that is from; of a secret only whether there is one.
pub resolve_group-Shows :
    (env : String → String) (db : List (String × String)) (prefix key : String)
    (defs : List (String × SettingDef)) (def : SettingDef)
    → lookup key defs ≡ some def
    → let db_val = or_empty (lookup (prefix ++ key) db) in
      (sv : SettingValue) × (lookup key (resolve_group env db prefix defs) ≡ some sv)
      × Shows def
          (effective (env def.env_var) db_val def.default_value)
          (origin (env def.env_var) db_val)
          sv
unfolding resolve_group lookup
resolve_group-Shows env db prefix key [] def h = absurd (ground (arith, h))
resolve_group-Shows env db prefix key ((k, d) ∷ defs) def h = elim (Bool-cases (k == key)) [
  | inl same ↦
      let is_def : d ≡ def = ground (arith, h, same) in
      (
        resolve d (env d.env_var) (or_empty (lookup (prefix ++ k) db)),
        rw same refl,
        rw (is_def, (eq_iff k key).0 same)
            (resolve-Shows def (env def.env_var) (or_empty (lookup (prefix ++ key) db))),
      )
  | inr apart ↦ rw apart (resolve_group-Shows env db prefix key defs def (rw apart at h))
]

-- ===== src/Store/Settings.antt =====
-- internal/store/settings.go
pub mod Laws
use agentic_hive.Prelude.{
  String, Bool, true, false, Option, none, some, List, [], ◌∷◌, if◌then◌else◌, Result, ok, err,
  lookup, insert, delete,
}
use agentic_hive.Store.{
  Store, Engine, StoreError, engine_failure, select_settings, select_setting, replace_setting,
  delete_setting,
}

abbrev or_empty : Option String → String
or_empty none = ""
or_empty (some v) = v

module _ (db : Engine) where
  -- A missing key reads as the empty text, with no error.
  unfoldable pub get_setting : String → Store → Result StoreError String
  get_setting key s =
      if db (select_setting key) then err engine_failure else ok (or_empty (lookup key s.settings))

  unfoldable pub set_setting : String → String → Store → Result StoreError (Unit {0}) × Store
  set_setting key value s =
      if db (replace_setting key)
      then (err engine_failure, s)
      else (ok tt, record s { settings = insert key value s.settings })

  unfoldable pub remove_setting : String → Store → Result StoreError (Unit {0}) × Store
  remove_setting key s =
      if db (delete_setting key)
      then (err engine_failure, s)
      else (ok tt, record s { settings = delete key s.settings })

  unfoldable pub get_all_settings : Store → Result StoreError (List (String × String))
  get_all_settings s = if db select_settings then err engine_failure else ok s.settings

-- ===== src/Store/Settings/Laws.antt =====
-- The settings table as a map from keys to texts.
use text.Mathlib.Text.{◌==◌}
use agentic_hive.Prelude.{
  String, ◌≡◌, false, arith, if◌then◌else◌, ok, lookup-insert, lookup-delete,
}
use agentic_hive.Store.{Statement, Store, Engine, select_setting, replace_setting}
use agentic_hive.Store.Settings.{get_setting, set_setting, remove_setting}

-- Where the table can be read: after `set_setting` the key reads as the new value and every other
-- key as before, and all keys read as before if the engine refused the write.
pub get_setting-set_setting :
    (db : Engine) (key other value : String) (s : Store)
    → db (select_setting other) ≡ false
    → get_setting db other (set_setting db key value s).1 ≡ (
        if db (replace_setting key)
        then get_setting db other s
        else if key == other
        then ok value
        else get_setting db other s)
unfolding get_setting set_setting
get_setting-set_setting db key other value s up =
    ground (arith, lookup-insert key other value s.settings)

-- Where the engine answers, a removed key reads as the empty text, and every other key as before.
pub get_setting-remove_setting :
    (db : Engine) (key other : String) (s : Store)
    → db (select_setting other) ≡ false
    → db (Statement.delete_setting key) ≡ false
    → get_setting db other (remove_setting db key s).1
      ≡ (if key == other then ok "" else get_setting db other s)
unfolding get_setting remove_setting
get_setting-remove_setting db key other s up up' =
    ground (arith, lookup-delete key other s.settings)

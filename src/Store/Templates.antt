-- ===== src/Store/Templates.antt =====
-- internal/store/templates.go
pub mod Seeding
use Prim.Native.String.{compare}
use Prim.Native.Nat.{Ordering}
use text.Mathlib.Text.{◌==◌}
use agentic_hive.Prelude.{
  ℕ, String, Bool, true, false, not, ◌&&◌, ◌||◌, Option, none, some, List, [], ◌∷◌, ◌++◌,
  if◌then◌else◌, select, any, Result, ok, err,
}
use agentic_hive.Store.{
  SessionTemplate, Store, Engine, StoreError, engine_failure, count_templates, insert_template,
  select_templates,
}
use agentic_hive.Store.Ordering.{order_by}

pub record DefaultTemplate : Type 0 where
  pub name : String
  pub command : String
  pub workdir : String

abbrev pub default_templates : List DefaultTemplate
default_templates =
    record { name = "Claude Code"; command = "claude"; workdir = "~/" }
    ∷ record {
      name = "Claude Code (full access)";
      command = "claude --dangerously-skip-permissions";
      workdir = "~/";
    }
    ∷ record { name = "Claude Code (resume)"; command = "claude --resume"; workdir = "~/" }
    ∷ record { name = "Codex"; command = "codex"; workdir = "~/" }
    ∷ record { name = "Shell"; command = "bash"; workdir = "~/" }
    ∷ []

abbrev pub is_global : SessionTemplate → Bool
is_global t = elim t.server_id [ none ↦ true | some id ↦ false ]

-- `name = ? AND server_id IS NULL`
abbrev pub has_global : String → List SessionTemplate → Bool
has_global name ts = any (λ t. t.name == name && is_global t) ts

abbrev pub of_server : String → SessionTemplate → Bool
of_server id t = elim t.server_id [ none ↦ true | some owner ↦ owner == id ]

abbrev name_le : SessionTemplate → SessionTemplate → Bool
name_le t u = elim (compare t.name u.name) [ Ordering.gt ↦ false | _ ↦ true ]

-- `new_id` gives the identifier of the template of a name.
module _ (db : Engine) (new_id : String → String) (now : ℕ) where
  abbrev pub seeded : DefaultTemplate → SessionTemplate
  seeded t = record {
    id = new_id t.name;
    name = t.name;
    command = t.command;
    workdir = t.workdir;
    server_id = none;
    created_at = now;
  }

  -- The loop returns at the first error, and what it wrote before stays.
  unfoldable pub seed_from : List DefaultTemplate → Store → Result StoreError (Unit {0}) × Store
  seed_from [] s = (ok tt, s)
  seed_from (t ∷ ts) s =
      let skipped = seed_from ts s in
      let written =
        seed_from ts (record s { session_templates = s.session_templates ++ seeded t ∷ [] }) in
      if db (count_templates t.name)
      then (err engine_failure, s)
      else if has_global t.name s.session_templates
      then skipped
      else if db (insert_template t.name)
      then (err engine_failure, s)
      else written

  unfoldable pub seed_templates : Store → Result StoreError (Unit {0}) × Store
  unfolding seed_from
  seed_templates s = seed_from default_templates s

module _ (db : Engine) where
  unfoldable pub list_templates : String → Store → Result StoreError (List SessionTemplate)
  list_templates server_id s =
      let rows =
        if not (server_id == "")
        then select (of_server server_id) s.session_templates
        else select is_global s.session_templates in
      if db select_templates then err engine_failure else ok (order_by name_le rows)

-- ===== src/Server/Settings/Saving.antt =====
-- What an update of the settings saves and puts in force.
use text.Mathlib.Text.{◌==◌}
use agentic_hive.Prelude.{
  zero, suc, ◌||◌, if◌then◌else◌, ◌≡◌, refl, Bool, true, false, String, List, [], ◌∷◌, All, Option,
  none, some, Result, ok, err, arith, ap, sym, subst, ◌∙◌, Bool-cases, inl, inr, lookup, insert,
  lookup-insert_self, lookup-insert_ne, HasDistinctKeys, IsFresh,
}
use agentic_hive.Text.Numbers.{ℤ, pos, negsuc}
use agentic_hive.Store.{Store, StoreError, engine_failure, replace_setting}
use agentic_hive.Store.Audit.{log_audit}
use agentic_hive.Keystore.{Vault}
use agentic_hive.Store.Settings.{set_setting, get_all_settings}
use agentic_hive.Config.{Config, apply_db_settings}
use agentic_hive.Auth.Oidc.{OidcProvider}
use agentic_hive.Auth.Tokens.{Claims}
use agentic_hive.Http.{Request}
use agentic_hive.Server.{World, ServerEnv, audit}
use agentic_hive.Server.Settings.{
  persist, seconds, after_set, handle_update_settings, set_config, set_interval, swap_vault,
  vault_from, reinit_vault, fresh_config, swap_oidc, reinit_oidc, audited, interval_set, vault_set,
  oidc_set, reload, reread, persisted, touches_oidc, touches_vault, touches_interval,
}

-- Every update is in the table.
abbrev pub Saved : List (String × String) → Store → Type 0
Saved updates s = All (λ u. lookup u.0 s.settings ≡ some u.1) updates

audit-settings :
    (env : ServerEnv) (r : Request) (user : Option Claims)
    (action target_type target_id details : String) (s : Store)
    → (audit env r user action target_type target_id details s).settings ≡ s.settings
unfolding audit log_audit
audit-settings env r user action target_type target_id details s = ground arith

module _ (env : ServerEnv) where
  abbrev with_setting : String → String → Store → Store
  with_setting key value s = record s { settings = insert key value s.settings }

  set_setting-down :
      (key value : String) (s : Store)
      → env.auth.db (replace_setting key) ≡ true
      → set_setting env.auth.db key value s ≡ (err engine_failure, s)
  unfolding set_setting
  set_setting-down key value s down = rw down refl

  set_setting-up :
      (key value : String) (s : Store)
      → env.auth.db (replace_setting key) ≡ false
      → set_setting env.auth.db key value s ≡ (ok tt, with_setting key value s)
  unfolding set_setting
  set_setting-up key value s up = rw up refl

  persist-down :
      (key value : String) (updates : List (String × String)) (s : Store)
      → env.auth.db (replace_setting key) ≡ true
      → persist env ((key, value) ∷ updates) s ≡ (some key, s)
  unfolding persist after_set
  persist-down key value updates s down =
      ap (after_set env key (persist env updates)) (set_setting-down key value s down)

  persist-up :
      (key value : String) (updates : List (String × String)) (s : Store)
      → env.auth.db (replace_setting key) ≡ false
      → persist env ((key, value) ∷ updates) s ≡ persist env updates (with_setting key value s)
  unfolding persist after_set
  persist-up key value updates s up =
      ap (after_set env key (persist env updates)) (set_setting-up key value s up)

  -- A key that is not updated keeps its value.
  persist-other :
      (k : String) (updates : List (String × String)) (s : Store)
      → IsFresh k updates
      → lookup k (persist env updates s).1.settings ≡ lookup k s.settings
  unfolding persist
  persist-other k [] s fresh = refl
  persist-other k ((key, value) ∷ updates) s (f, fresh) =
      elim (Bool-cases (env.auth.db (replace_setting key))) [
        | inl down ↦ ap (λ p. lookup k p.1.settings) (persist-down key value updates s down)
        | inr up ↦
            ap (λ p. lookup k p.1.settings) (persist-up key value updates s up)
            ∙ persist-other k updates (with_setting key value s) fresh
            ∙ lookup-insert_ne key k value s.settings f
      ]

  persist-Saved :
      (updates : List (String × String)) (s : Store)
      → HasDistinctKeys updates
      → (persist env updates s).0 ≡ none
      → Saved updates (persist env updates s).1
  persist-Saved [] s d h = tt
  persist-Saved ((key, value) ∷ updates) s (f, d) h =
      elim (Bool-cases (env.auth.db (replace_setting key))) [
        | inl down ↦ let bad = rw (persist-down key value updates s down) at h in cc (bad)
        | inr up ↦
            let t = with_setting key value s in
            subst (λ p. Saved ((key, value) ∷ updates) p.1)
              (sym (persist-up key value updates s up))
              (
                persist-other key updates t f ∙ lookup-insert_self key value s.settings,
                persist-Saved updates t d
                    (ap (λ p. p.0) (sym (persist-up key value updates s up)) ∙ h),
              )
      ]

  -- A configuration is live, and settings are in the table.
  abbrev InForce : Config → List (String × String) → World → Type 0
  InForce c all w = (w.config ≡ c) × (w.store.settings ≡ all)

  module _ (c : Config) (all : List (String × String)) where
    if-InForce {ℓ} :
        {A : Type ℓ}
        → (world : A → World) (b : Bool) (x y : A) → InForce c all (world x)
        → InForce c all (world y)
        → InForce c all (world (if b then x else y))
    if-InForce world true x y h k = h
    if-InForce world false x y h k = k

    set_interval-InForce :
        (n : ℤ) (w : World) → InForce c all w → InForce c all (set_interval env n w)
    set_interval-InForce (pos zero) w k = k
    set_interval-InForce (pos (suc n)) w k = k
    set_interval-InForce (negsuc n) w k = k

    swap_vault-InForce :
        (d : Config) (v : Option Vault) (w : World)
        → InForce c all w
        → InForce c all (swap_vault env d v w).1
    unfolding swap_vault
    swap_vault-InForce d none w k = k
    swap_vault-InForce d (some v) w k = k

    reinit_vault-InForce : (w : World) → InForce c all w → InForce c all (reinit_vault env w).1
    unfolding reinit_vault
    reinit_vault-InForce w k =
        let d = fresh_config env w in
        elim (Bool-cases (d.vault_addr == "" || d.vault_token == "")) [
          | inl lacking ↦ rw (lacking, vault_from) k
          | inr both ↦ rw (both, vault_from) (swap_vault-InForce d _ w k)
        ]

    swap_oidc-InForce :
        (d : Config) (p : Option OidcProvider) (w : World)
        → InForce c all w
        → InForce c all (swap_oidc env d p w).1
    unfolding swap_oidc
    swap_oidc-InForce d none w k = k
    swap_oidc-InForce d (some p) w k = k

    reinit_oidc-InForce : (w : World) → InForce c all w → InForce c all (reinit_oidc env w).1
    unfolding reinit_oidc
    reinit_oidc-InForce w k =
        let d = fresh_config env w in
        elim (Bool-cases (d.oidc_issuer_url == "" || d.oidc_client_id == "")) [
          | inl lacking ↦ rw (lacking, reinit_oidc) k
          | inr both ↦ rw (both, reinit_oidc) (swap_oidc-InForce d _ w k)
        ]

    module _ (r : Request) (user : Option Claims) (updates : List (String × String)) where
      audited-InForce :
          (shown : List (String × String)) (w : World)
          → InForce c all w
          → InForce c all (audited env r user updates shown w).1
      unfolding audited
      audited-InForce shown w k = (k.0, audit-settings env r user _ _ _ _ w.store ∙ k.1)

      interval_set-InForce :
          (shown : List (String × String)) (w : World)
          → InForce c all w
          → InForce c all (interval_set env r user updates shown w).1
      unfolding interval_set
      interval_set-InForce shown w k =
          let changed = set_interval env (seconds w.config.poll_interval) w in
          audited-InForce shown (if touches_interval updates then changed else w) (
            if-InForce (λ v. v) (touches_interval updates) changed w (set_interval-InForce _ w k) k)

      vault_set-InForce :
          (shown : List (String × String)) (result : Bool × World)
          → InForce c all result.1
          → InForce c all (vault_set env r user updates shown result).1
      unfolding vault_set
      vault_set-InForce shown (false, w) k = k
      vault_set-InForce shown (true, w) k = interval_set-InForce shown w k

      oidc_set-InForce :
          (shown : List (String × String)) (result : Bool × World)
          → InForce c all result.1
          → InForce c all (oidc_set env r user updates shown result).1
      unfolding oidc_set
      oidc_set-InForce shown (false, w) k = k
      oidc_set-InForce shown (true, w) k =
          vault_set-InForce shown (if touches_vault updates then reinit_vault env w else (true, w))
            (if-InForce (λ (result : Bool × World). result.1) (touches_vault updates) _ (true, w)
              (reinit_vault-InForce w k) k)

      reload-InForce :
          (shown : List (String × String)) (w : World)
          → InForce c all w
          → InForce c all (reload env r user updates shown w).1
      unfolding reload
      reload-InForce shown w k =
          oidc_set-InForce shown (if touches_oidc updates then reinit_oidc env w else (true, w)) (
            if-InForce (λ (result : Bool × World). result.1) (touches_oidc updates) _ (true, w)
              (reinit_oidc-InForce w k) k)

  module _ (r : Request) (user : Option Claims) where
    -- What an answer 200 tells of the table and of the configuration.
    abbrev pub Effective : List (String × String) → World → World → Type 0
    Effective updates w w' =
        Saved updates w'.store
        × (w'.config ≡ apply_db_settings env.environ w'.store.settings w.config)

    all_read :
        (all : List (String × String)) (s : Store)
        → get_all_settings env.auth.db s ≡ ok all
        → s.settings ≡ all
    unfolding get_all_settings
    all_read all s h = ground arith

    Saved-settings :
        (updates : List (String × String)) (s t : Store)
        → s.settings ≡ t.settings
        → Saved updates s
        → Saved updates t
    Saved-settings [] s t same saved = tt
    Saved-settings (u ∷ updates) s t same (h, saved) =
        (rw (← same) h, Saved-settings updates s t same saved)

    reread-Effective :
        (updates : List (String × String)) (w : World)
        (found : Result StoreError (List (String × String)))
        → get_all_settings env.auth.db w.store ≡ found
        → Saved updates w.store
        → (reread env r user updates found w).0.status ≡ 200
        → Effective updates w (reread env r user updates found w).1
    unfolding reread set_config
    reread-Effective updates w (err e) read saved h = absurd (omega arith)
    reread-Effective updates w (ok all) read saved h =
        let c = apply_db_settings env.environ all w.config in
        let (live, table) =
          reload-InForce c w.store.settings r user updates all (set_config env c w) (refl, refl) in
        let after = (reload env r user updates all (set_config env c w)).1.store in
        (
          Saved-settings updates w.store after (sym table) saved,
          live
              ∙ ap (λ t. apply_db_settings env.environ t w.config)
                  (sym (table ∙ all_read all w.store read)),
        )

    persisted-Effective :
        (updates : List (String × String)) (w : World) (result : Option String × Store)
        → (result.0 ≡ none → Saved updates result.1)
        → (persisted env r user updates result w).0.status ≡ 200
        → Effective updates w (persisted env r user updates result w).1
    unfolding persisted
    persisted-Effective updates w (some key, s) saved h = absurd (omega arith)
    persisted-Effective updates w (none, s) saved h =
        reread-Effective updates (record w { store = s }) _ refl (saved refl) h

    -- After an answer 200 to an update of distinct settings, all of them are in the table, and the
    -- live configuration is the one before with the settings of the whole table applied.
    pub handle_update_settings-Effective :
        (updates : List (String × String)) (w : World)
        → HasDistinctKeys updates
        → (handle_update_settings env r user (some updates) w).0.status ≡ 200
        → Effective updates w (handle_update_settings env r user (some updates) w).1
    unfolding handle_update_settings
    handle_update_settings-Effective [] w d h = absurd (omega arith)
    handle_update_settings-Effective (u ∷ updates) w d h =
        persisted-Effective (u ∷ updates) w (persist env (u ∷ updates) w.store)
          (persist-Saved (u ∷ updates) w.store d) h

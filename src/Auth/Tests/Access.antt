-- ===== src/Auth/Tests/Access.antt =====
-- Tokens, guards, the CSRF check and the callback on concrete requests.
use text.Mathlib.Text.{◌==◌}
use mathlib.Core.List.{Mem}
use agentic_hive.Prelude.{
  ◌≡◌, refl, ◌↔◌, ◌⊎◌, ◌≢◌, true, none, some, [], ◌∷◌, if◌then◌else◌, lookup,
}
use agentic_hive.Http.{Request, cookie, param}
use agentic_hive.Store.{role_admin, role_user}
use agentic_hive.Store.Users.{upsert_oidc_user}
use agentic_hive.Auth.Cookies.{read_csrf_cookie}
use agentic_hive.Auth.Csrf.{csrf_protect, forbidden, server_exemptions}
use agentic_hive.Auth.Csrf.Soundness.{sent_token, is_checked, csrf_protect-forbidden_iff}
use agentic_hive.Auth.Tokens.{sign_jwt}
use agentic_hive.Auth.Oidc.{
  single, array, OidcHandler, claim_string, claim_string_slice, username_of, role_of,
  handle_callback,
}
use agentic_hive.Auth.Oidc.Callback.{Verified, handle_callback_sound, role_of-admin_iff}
use agentic_hive.Auth.Tests.{empty_store, env, with_cookies}

abbrev visitor : Request
visitor = with_cookies (("session", "token") ∷ [])

abbrev forged : Request
forged = record (with_cookies (("session", "token") ∷ ("csrf", "c1") ∷ [])) {
  headers = ("X-CSRF-Token", "c2") ∷ [];
}

csrf_protect-forbidden_iff_example : (csrf_protect server_exemptions forged ≡ forbidden) ↔ (
    (is_checked server_exemptions forged ≡ true)
    × ¬ ((read_csrf_cookie forged ≢ "") × (sent_token forged ≡ read_csrf_cookie forged)))
csrf_protect-forbidden_iff_example = csrf_protect-forbidden_iff server_exemptions forged

-- A provider that knows one code.
abbrev handler : OidcHandler
handler = record {
  provider = record {
    auth_code_url = λ state. state;
    exchange = λ code. if code == "code" then some (some "raw") else none;
    verify = λ raw.
        if raw == "raw"
        then some (record {
          subject = "s1";
          claims =
              some (
                ("preferred_username", single "ann") ∷ ("groups", array (some "admins" ∷ [])) ∷ []);
        })
        else none;
  };
  roles_claim = "groups";
  admin_group = "admins";
}

abbrev returning : Request
returning = record (with_cookies (("oidc_state", "state") ∷ [])) {
  query = ("state", "state") ∷ ("code", "code") ∷ [];
}

handle_callback_sound_example :
    (cookie returning "oidc_state" ≡ some (param returning "state"))
    × (param returning "code" ≢ "")
    × Verified env returning handler empty_store
        (handler.provider.exchange (param returning "code"))
        (handle_callback env returning handler empty_store).0
unfolding handle_callback upsert_oidc_user username_of role_of claim_string claim_string_slice
    sign_jwt lookup
handle_callback_sound_example = handle_callback_sound env returning handler empty_store refl

role_of-admin_iff_example :
    ((role_of handler (("groups", array (some "admins" ∷ [])) ∷ []) ≡ role_admin)
      ↔ Mem "admins" (claim_string_slice (("groups", array (some "admins" ∷ [])) ∷ []) "groups"))
    × ((role_of handler (("groups", array (some "admins" ∷ [])) ∷ []) ≡ role_admin)
        ⊎ (role_of handler (("groups", array (some "admins" ∷ [])) ∷ []) ≡ role_user))
role_of-admin_iff_example = role_of-admin_iff handler (("groups", array (some "admins" ∷ [])) ∷ [])

-- ===== src/Auth/Tests/Accounts.antt =====
-- Login and setup on one account.
use text.Mathlib.Text.{◌==◌}
use agentic_hive.Prelude.{◌≡◌, refl, String, true, some, [], ◌∷◌, arith, ok}
use agentic_hive.Http.{cookie, failed, SameSite}
use agentic_hive.Store.{User, working, role_admin}
use agentic_hive.Store.Users.{get_user_by_username, create_user, user_count}
use agentic_hive.Auth.Cookies.{session_cookie, csrf_cookie}
use agentic_hive.Auth.Tokens.{sign_jwt}
use agentic_hive.Auth.Guards.{granted, require_auth}
use agentic_hive.Auth.Local.{claims_of, start_session, handle_login, setup_needed, handle_setup}
use agentic_hive.Auth.Local.Login.{Started, handle_login_sound, login_then_access}
use agentic_hive.Auth.Local.Setup.{handle_setup_once}
use agentic_hive.Auth.Tests.{
  empty_store, store, library, library-IsFaithful, env, plain_request, with_cookies, credentials,
}

handle_login_sound_example :
    (u : User) × (get_user_by_username working "ann" store ≡ ok u)
    × ((u.password_hash == "pw") ≡ true)
    × Started env plain_request u (handle_login env plain_request (some credentials) store).0
unfolding handle_login start_session get_user_by_username sign_jwt
handle_login_sound_example = handle_login_sound env plain_request credentials store refl

login_then_access_example :
    (u : User) × (token : String) × (csrf : String) × (get_user_by_username working "ann" store
      ≡ ok u)
    × ((handle_login env plain_request (some credentials) store).0.cookies
        ≡ session_cookie token SameSite.strict ∷ csrf_cookie csrf ∷ [])
    × (cookie (with_cookies (("session", "token") ∷ [])) "session" ≡ some token
        → require_auth library "key" 200 (with_cookies (("session", "token") ∷ []))
          ≡ granted (claims_of u))
unfolding handle_login start_session get_user_by_username sign_jwt
login_then_access_example =
    login_then_access env plain_request (with_cookies (("session", "token") ∷ [])) credentials store
      200 library-IsFaithful refl (omega arith)

handle_setup_once_example :
    (u : User) × (u.role ≡ role_admin)
    × (empty_store.users ≡ [])
    × ((handle_setup env plain_request (some credentials) empty_store).1
        ≡ record empty_store { users = u ∷ [] })
    × (handle_setup env plain_request
          (some credentials)
          (handle_setup env plain_request (some credentials) empty_store).1
        ≡ (
          failed 403 "setup already completed",
          (handle_setup env plain_request (some credentials) empty_store).1,
        ))
unfolding handle_setup setup_needed user_count create_user start_session sign_jwt
handle_setup_once_example =
    handle_setup_once env env plain_request plain_request (some credentials) (some credentials)
      empty_store refl

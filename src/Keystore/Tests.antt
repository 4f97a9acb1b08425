-- ===== src/Keystore/Tests.antt =====
-- A private key that goes into the table and out again.
use agentic_hive.Prelude.{◌≡◌, refl, ◌≢◌, String, [], ◌∷◌, some, ok}
use agentic_hive.Store.{working}
use agentic_hive.Store.Tests.{store}
use agentic_hive.Keystore.{Cipher, IsAuthentic, local, get_key, put_key}
use agentic_hive.Keystore.Sealing.{get_key-put_key}

-- A cipher that seals nothing.
abbrev clear : Cipher
clear = record {
  derive = λ secret salt. salt;
  seal = λ key nonce plain. plain;
  decrypt = λ key nonce sealed. some sealed;
}

clear-IsAuthentic : IsAuthentic clear
clear-IsAuthentic = record { decrypt-seal = λ key nonce plain. refl }

get_key-put_key_example :
    (get_key clear working
        (local "secret")
        "v1"
        (put_key clear working (local "secret") "v1" (4 ∷ 5 ∷ []) (some (1 ∷ [], 2 ∷ [])) store).1
      ≡ ok (4 ∷ 5 ∷ []))
    × ((other : String)
        → "v1" ≢ other
        → get_key clear working
            (local "secret")
            other
            (put_key clear working
              (local "secret")
              "v1"
              (4 ∷ 5 ∷ [])
              (some (1 ∷ [], 2 ∷ []))
              store).1
          ≡ get_key clear working (local "secret") other store)
unfolding put_key
get_key-put_key_example =
    get_key-put_key clear working "secret" "v1" (4 ∷ 5 ∷ []) (some (1 ∷ [], 2 ∷ [])) store
      clear-IsAuthentic refl refl

-- ===== src/Keystore.antt =====
-- internal/keystore: where the private keys are, behind `SwappableKeyStore`. AES-GCM, Argon2 and the
-- client of Vault are parameters.
pub mod Sealing
pub mod Keeping
mod Tests
use text.Mathlib.Text.{◌==◌}
use Prim.Native.String
use agentic_hive.Prelude.{
  ℕ, String, Bool, true, false, Option, none, some, List, [], ◌∷◌, if◌then◌else◌, any, lookup,
  insert, delete, Result, ok, err, ◌≡◌,
}
use agentic_hive.Store.{SshKey, Store, Engine, upsert_ssh_key, select_ssh_key, delete_ssh_key}

pub data KeyError : Type 0 where
  key_missing : KeyError
  random_failed : KeyError
  query_failed : KeyError
  constraint_failed : KeyError
  open_failed : KeyError
  unsupported : KeyError
  vault_failed : KeyError
  no_private_key : KeyError

-- `derive` is Argon2id with the fixed costs; `seal` and `open` are AES-256-GCM under key and nonce.
pub record Cipher : Type 0 where
  pub derive : String → List ℕ → List ℕ
  pub seal : (key nonce plain : List ℕ) → List ℕ
  pub decrypt : (key nonce sealed : List ℕ) → Option (List ℕ)

-- What the cipher documents: what was sealed opens under the same key and nonce.
pub record IsAuthentic (c : Cipher) : Type 0 where
  pub decrypt-seal :
      (key nonce plain : List ℕ) → c.decrypt key nonce (c.seal key nonce plain) ≡ some plain

-- Vault's KV store: a secret's data at a path, of which the source reads one field. The inner
-- `none` is a field that is missing or no text.
pub record Vault : Type 0 where
  pub read : String → Option (Option (List ℕ))
  pub write : String → List ℕ → Bool
  pub remove : String → Bool

pub data KeyStore : Type 0 where
  local : (encryption_secret : String) → KeyStore
  vault : Vault → (secret_path : String) → KeyStore

abbrev pub key_path : String → String → String
key_path secret_path server_id = String.◌++◌ (String.◌++◌ secret_path "/") server_id

-- `Backend`
abbrev pub backend : KeyStore → String
backend (local secret) = "local"
backend (vault v path) = "vault"

module _ (cipher : Cipher) (db : Engine) where
  decrypted : Option (List ℕ) → Result KeyError (List ℕ)
  decrypted none = err open_failed
  decrypted (some key) = ok key

  open_row : String → Option SshKey → Result KeyError (List ℕ)
  unfolding decrypted
  open_row secret none = err key_missing
  open_row secret (some row) =
      decrypted (cipher.decrypt (cipher.derive secret row.salt) row.nonce row.encrypted_key)

  vault_field : Option (Option (List ℕ)) → Result KeyError (List ℕ)
  vault_field none = err vault_failed
  vault_field (some none) = err no_private_key
  vault_field (some (some key)) = ok key

  unfoldable pub get_key : KeyStore → String → Store → Result KeyError (List ℕ)
  unfolding open_row vault_field
  get_key (local secret) server_id s =
      if db select_ssh_key then err query_failed else open_row secret (lookup server_id s.ssh_keys)
  get_key (vault v path) server_id s = vault_field (v.read (key_path path server_id))

  unfoldable pub get_from_path : KeyStore → String → Result KeyError (List ℕ)
  unfolding vault_field
  get_from_path (local secret) path = err unsupported
  get_from_path (vault v secret_path) path = vault_field (v.read path)

  -- `random` holds the salt and the nonce, and is `none` where reading random bytes fails. The row
  -- refers to a server, which has to exist.
  put_local :
      String
      → String
      → List ℕ
      → Option (List ℕ × List ℕ)
      → Store
      → Result KeyError (Unit {0}) × Store
  put_local secret server_id key none s = (err random_failed, s)
  put_local secret server_id key (some (salt, nonce)) s =
      if db upsert_ssh_key
      then (err query_failed, s)
      else if any (λ srv. srv.id == server_id) s.servers
      then (
        ok tt,
        record s {
          ssh_keys =
              insert server_id
                (record {
                  encrypted_key = cipher.seal (cipher.derive secret salt) nonce key;
                  salt = salt;
                  nonce = nonce;
                })
                s.ssh_keys;
        },
      )
      else (err constraint_failed, s)

  -- What is written to Vault is outside of the store.
  unfoldable pub put_key :
      KeyStore
      → String
      → List ℕ
      → Option (List ℕ × List ℕ)
      → Store
      → Result KeyError (Unit {0}) × Store
  unfolding put_local
  put_key (local secret) server_id key random s = put_local secret server_id key random s
  put_key (vault v path) server_id key random s =
      (if v.write (key_path path server_id) key then ok tt else err vault_failed, s)

  unfoldable pub delete_key : KeyStore → String → Store → Result KeyError (Unit {0}) × Store
  delete_key (local secret) server_id s =
      if db delete_ssh_key
      then (err query_failed, s)
      else (ok tt, record s { ssh_keys = delete server_id s.ssh_keys })
  delete_key (vault v path) server_id s =
      (if v.remove (key_path path server_id) then ok tt else err vault_failed, s)

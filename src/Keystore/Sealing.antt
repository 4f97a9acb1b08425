-- ===== src/Keystore/Sealing.antt =====
-- What was put under a server comes back, and the keys of other servers stay as they were.
use agentic_hive.Prelude.{
  ℕ, String, ◌≡◌, ◌≢◌, false, Option, none, some, List, arith, lookup-insert, lookup-delete, ok,
  err, str_ne, str_eq_refl,
}
use agentic_hive.Store.{SshKey, Store, Engine, select_ssh_key}
use agentic_hive.Keystore.{Cipher, IsAuthentic, key_missing, local, get_key, put_key, delete_key}

module _ (cipher : Cipher) (db : Engine) (secret : String) where
  -- With an authentic cipher and a table that can be read, a key that was put into the local store
  -- is read back as it was, and the keys of the other servers read as before.
  pub get_key-put_key :
      (server_id : String) (key : List ℕ) (random : Option (List ℕ × List ℕ)) (s : Store)
      → IsAuthentic cipher
      → db select_ssh_key ≡ false
      → (put_key cipher db (local secret) server_id key random s).0 ≡ ok tt
      → (get_key cipher db
            (local secret)
            server_id
            (put_key cipher db (local secret) server_id key random s).1
          ≡ ok key)
        × ((other : String)
            → server_id ≢ other
            → get_key cipher db
                (local secret)
                other
                (put_key cipher db (local secret) server_id key random s).1
              ≡ get_key cipher db (local secret) other s)
  unfolding put_key get_key
  get_key-put_key server_id key none s authentic up h = absurd (ground arith)
  get_key-put_key server_id key (some (salt, nonce)) s authentic up h =
      let row : SshKey = record {
        encrypted_key = cipher.seal (cipher.derive secret salt) nonce key;
        salt = salt;
        nonce = nonce;
      } in
      (
        ground (
          arith,
          lookup-insert server_id server_id row s.ssh_keys,
          str_eq_refl server_id,
          authentic.decrypt-seal (cipher.derive secret salt) nonce key,
        ),
        λ other ne.
            ground (arith, lookup-insert server_id other row s.ssh_keys, str_ne server_id other ne),
      )

  -- Where the table can be read, a key that was deleted from the local store is missing.
  pub get_key-delete_key :
      (server_id : String) (s : Store)
      → db select_ssh_key ≡ false
      → (delete_key cipher db (local secret) server_id s).0 ≡ ok tt
      → get_key cipher db
          (local secret)
          server_id
          (delete_key cipher db (local secret) server_id s).1
        ≡ err key_missing
  unfolding delete_key get_key
  get_key-delete_key server_id s up h =
      ground (arith, lookup-delete server_id server_id s.ssh_keys, str_eq_refl server_id)

-- ===== src/Keystore/Keeping.antt =====
-- What the key of one server leaves to the others.
use agentic_hive.Prelude.{ℕ, ◌≢◌, String, List, arith, Option, none, some, lookup-insert_ne}
use agentic_hive.Store.{Store, SshKey, Engine}
use agentic_hive.Store.Keeping.{Keeps, keeps, lookup-delete_ne}
use agentic_hive.Keystore.{Cipher, KeyStore, local, vault, put_key, delete_key}

pub put_key-Keeps :
    (cipher : Cipher) (db : Engine) (ks : KeyStore) (id : String) (key : List ℕ)
    (random : Option (List ℕ × List ℕ)) (j : String) (s : Store)
    → id ≢ j
    → Keeps j s (put_key cipher db ks id key random s).1
unfolding put_key
put_key-Keeps cipher db (vault v path) id key random j s h = keeps j s
put_key-Keeps cipher db (local secret) id key none j s h = keeps j s
put_key-Keeps cipher db (local secret) id key (some (salt, nonce)) j s h =
    let row : SshKey = record {
      encrypted_key = cipher.seal (cipher.derive secret salt) nonce key;
      salt = salt;
      nonce = nonce;
    } in
    record {
      same_rows = ground arith;
      same_key = ground (arith, lookup-insert_ne id j row s.ssh_keys h);
      same_host_key = ground arith;
    }

pub delete_key-Keeps :
    (cipher : Cipher) (db : Engine) (ks : KeyStore) (id j : String) (s : Store)
    → id ≢ j
    → Keeps j s (delete_key cipher db ks id s).1
unfolding delete_key
delete_key-Keeps cipher db (vault v path) id j s h = keeps j s
delete_key-Keeps cipher db (local secret) id j s h = record {
  same_rows = ground arith;
  same_key = ground (arith, lookup-delete_ne id j s.ssh_keys h);
  same_host_key = ground arith;
}

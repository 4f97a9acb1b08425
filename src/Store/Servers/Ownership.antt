-- ===== src/Store/Servers/Ownership.antt =====
-- Who sees which server: `get_server` and `list_servers` under an owner.
use text.Mathlib.Text.{◌==◌}
use mathlib.Core.List.{Memᴰ, Mem, mem-cons_self, mem-cons_of_mem}
use mathlib.Core.List.Perm
use mathlib.Core.Logic.{∥∥₁_elim, ∥∥₁_map}
use text.Mathlib.TextEquality.{IsScalar-prop}
use agentic_hive.Prelude.{
  ◌≡◌, refl, ◌≢◌, ◌↔◌, Bool, true, false, ◌&&◌, List, [], ◌∷◌, String, arith, select, any, All,
  Result, ok, err, eq_iff, Bool-cases, inl, inr, str_eq_refl,
}
use agentic_hive.Store.{Server, Store, Engine, StoreError, not_found, select_server}
use agentic_hive.Store.Unique.{Unique}
use agentic_hive.Store.Ordering.{order_by, order_by-perm}
use agentic_hive.Store.Servers.{clashes, visible, first, name_le, get_server, list_servers}

-- The row of an identifier, if it is there and its owner may see it.
get_rows : List Server → String → String → Result StoreError Server
get_rows rows id owner = first (select (λ srv. srv.id == id && visible owner srv) rows)

get_rows_sound :
    (rows : List Server) (id owner : String) (srv : Server)
    → get_rows rows id owner ≡ ok srv
    → (srv.id ≡ id) × (visible owner srv ≡ true) × Mem srv rows
unfolding get_rows first
get_rows_sound [] id owner srv h = cc
get_rows_sound (x ∷ rows) id owner srv h = elim (Bool-cases (x.id == id && visible owner x)) [
  | inl hit ↦
      let same : srv ≡ x = ground arith in
      (ground (arith, eq_iff x.id id), ground arith, rw same mem-cons_self)
  | inr miss ↦
      let (a, b, c) = get_rows_sound rows id owner srv (ground arith) in (a, b, mem-cons_of_mem x c)
]

-- What `get_server` returns has the identifier, may be seen by the owner, and is a row of the table.
pub get_server_sound :
    (db : Engine) (id owner : String) (s : Store) (srv : Server)
    → get_server db id owner s ≡ ok srv
    → (srv.id ≡ id) × (visible owner srv ≡ true) × Mem srv s.servers
unfolding get_server get_rows first
get_server_sound db id owner s srv h = get_rows_sound s.servers id owner srv (ground arith)

-- Every row with the identifier belongs to another user.
abbrev pub AllForeign : String → String → List Server → Type 0
AllForeign id owner rows =
    All (λ srv. srv.id ≡ id → (srv.owner_id ≢ owner) × (srv.owner_id ≢ "")) rows

none_visible :
    (rows : List Server) (id owner : String)
    → owner ≢ ""
    → AllForeign id owner rows
    → get_rows rows id owner ≡ err not_found
unfolding get_rows first
none_visible [] id owner named h = refl
none_visible (x ∷ rows) id owner named (f, h) = ground (
  arith,
  eq_iff x.id id,
  eq_iff owner "",
  eq_iff x.owner_id owner,
  eq_iff x.owner_id "",
  none_visible rows id owner named h,
)

-- A caller with an identifier of its own gets no server that another user owns; it is told that
-- there is none.
pub get_server-foreign :
    (db : Engine) (id owner : String) (s : Store)
    → owner ≢ ""
    → db select_server ≡ false
    → AllForeign id owner s.servers
    → get_server db id owner s ≡ err not_found
unfolding get_server get_rows first
get_server-foreign db id owner s named up foreign =
    rw up (none_visible s.servers id owner named foreign)

any-mem :
    (p : Server → Bool) (rows : List Server) (srv : Server)
    → Memᴰ srv rows
    → any p rows ≡ false
    → p srv ≡ false
any-mem p [] srv m h = elim m [ ]
any-mem p (x ∷ rows) srv (Memᴰ.head e) h = rw e (ground arith)
any-mem p (x ∷ rows) srv (Memᴰ.tail m) h = any-mem p rows srv m (ground arith)

get_rows_complete :
    (rows : List Server) (owner : String) (srv : Server)
    → Memᴰ srv rows
    → visible owner srv ≡ true
    → Unique clashes rows
    → get_rows rows srv.id owner ≡ ok srv
unfolding get_rows first
get_rows_complete [] owner srv m v u = elim m [ ]
get_rows_complete (x ∷ rows) owner srv (Memᴰ.head e) v u =
    rw (← e) (ground (arith, str_eq_refl srv.id))
get_rows_complete (x ∷ rows) owner srv (Memᴰ.tail m) v (f, u) =
    ground (arith, any-mem (clashes x) rows srv m f, get_rows_complete rows owner srv m v u)

Memᴰ-select :
    (p : Server → Bool) (rows : List Server) (srv : Server)
    → Memᴰ srv rows
    → p srv ≡ true
    → Memᴰ srv (select p rows)
Memᴰ-select p [] srv m h = elim m [ ]
Memᴰ-select p (x ∷ rows) srv (Memᴰ.head e) h =
    let hit : p x ≡ true = rw (← e) h in rw hit (Memᴰ.head e)
Memᴰ-select p (x ∷ rows) srv (Memᴰ.tail m) h = elim (Bool-cases (p x)) [
  | inl hit ↦ rw hit (Memᴰ.tail (Memᴰ-select p rows srv m h))
  | inr miss ↦ rw miss (Memᴰ-select p rows srv m h)
]

select-Memᴰ :
    (p : Server → Bool) (rows : List Server) (srv : Server)
    → Memᴰ srv (select p rows)
    → Memᴰ srv rows × (p srv ≡ true)
select-Memᴰ p [] srv m = elim m [ ]
select-Memᴰ p (x ∷ rows) srv m = elim (Bool-cases (p x)) [
  | inl hit ↦ at_head (rw hit at m) hit (select-Memᴰ p rows srv)
  | inr miss ↦ let (a, b) = select-Memᴰ p rows srv (rw miss at m) in (Memᴰ.tail a, b)
]
  where
    at_head :
        Memᴰ srv (x ∷ select p rows)
        → p x ≡ true
        → (Memᴰ srv (select p rows) → Memᴰ srv rows × (p srv ≡ true))
        → Memᴰ srv (x ∷ rows) × (p srv ≡ true)
    at_head (Memᴰ.head e) h rest = (Memᴰ.head e, rw e h)
    at_head (Memᴰ.tail m') h rest = let (a, b) = rest m' in (Memᴰ.tail a, b)

found-prop : (r : Result StoreError Server) (srv : Server) → IsProp (r ≡ ok srv)
found-prop r srv = hlevel (IsScalar-prop)

-- Where the engine answers and no two servers share an identifier or a name, the list that a caller
-- is shown holds exactly the servers that the same caller can get one by one.
pub list_servers-get_server :
    (db : Engine) (owner : String) (s : Store) (rows : List Server) (srv : Server)
    → db select_server ≡ false
    → Unique clashes s.servers
    → list_servers db owner s ≡ ok rows
    → Mem srv rows ↔ (get_server db srv.id owner s ≡ ok srv)
unfolding list_servers get_server get_rows first
list_servers-get_server db owner s rows srv up unique listed =
    let shown : rows ≡ order_by name_le (select (visible owner) s.servers) = ground arith in
    let same = Perm.mem_iff (order_by-perm name_le (select (visible owner) s.servers)) in
    (
      λ m. ∥∥₁_elim (same.0 (rw shown at m)) (found-prop _ srv) λ d.
          let (there, seen) = select-Memᴰ (visible owner) s.servers srv d in
          rw up (get_rows_complete s.servers owner srv there seen unique),
      λ e.
          let (_, seen, there) = get_server_sound db srv.id owner s srv e in
          rw shown (same.1 (∥∥₁_map there λ d. Memᴰ-select (visible owner) s.servers srv d seen)),
    )

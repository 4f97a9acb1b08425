-- ===== src/Store/Migrations/Running.antt =====
-- What a run of the migrations leaves, and what a later run does.
use agentic_hive.Prelude.{
  ℕ, ◌≤◌, ◌≡◌, refl, true, false, List, [], ◌∷◌, Option, none, some, All, arith, Bool-cases, inl,
  inr, if◌then◌else◌, ◌∙◌, ap, sym, subst,
}
use agentic_hive.Text.{Text, codes}
use agentic_hive.Text.Numbers.{ℤ, pos, negsuc}
use agentic_hive.Store.Migrations.{
  Database, Sql, Faults, Entry, and_then, highest, current_version, is_newer, scan_version, is_due,
  run_file, run_entries, migrate_entries,
}
use agentic_hive.Store.Migrations.Files.{migrations, migrate}
use agentic_hive.Store.Migrations.Statements.{
  and_then-none, Promise, IsRecording, run_file-promised,
}

module _ (faults : Faults) (current : ℕ) where
  run_entries-skip :
      (f : Entry) (es : List Entry) (db : Database)
      → is_due current f ≡ false
      → run_entries faults current (f ∷ es) db ≡ run_entries faults current es db
  unfolding run_entries
  run_entries-skip f es db skipped = ground arith

  run_entries-next :
      (f : Entry) (es : List Entry) (db : Database)
      → is_due current f ≡ true
      → (run_entries faults current (f ∷ es) db).0 ≡ none
      → ((run_file faults f.name f.content db).0 ≡ none)
        × (run_entries faults current (f ∷ es) db
            ≡ run_entries faults current es (run_file faults f.name f.content db).1)
  run_entries-next f es db due e =
      let (first, same) =
        and_then-none (run_file faults f.name f.content db) (λ d. run_entries faults current es d)
          (sym (ap (λ o. o.0) taken) ∙ e) in
      (first, taken ∙ same)
    where
      taken :
          run_entries faults current (f ∷ es) db
          ≡ and_then (run_file faults f.name f.content db) (λ d. run_entries faults current es d)
      taken = unfold run_entries in ground arith

  run_entries-rises :
      (es : List Entry) (db : Database)
      → (run_entries faults current es db).0 ≡ none
      → highest db.versions ≤ highest (run_entries faults current es db).1.versions
  run_entries-rises [] db e = unfold run_entries in omega arith
  run_entries-rises (f ∷ es) db e = elim (Bool-cases (is_due current f)) [
    | inr skipped ↦
        let same = run_entries-skip f es db skipped in
        rw same (run_entries-rises es db (sym (ap (λ o. o.0) same) ∙ e))
    | inl due ↦
        let (first, same) = run_entries-next f es db due e in
        let ran = run_file faults f.name f.content db in
        let rest = run_entries-rises es ran.1 (sym (ap (λ o. o.0) same) ∙ e) in
        rw same (omega (arith, rest, (run_file-promised faults f.name f.content db first).0))
  ]

-- A file is not due at any version from one on that it records.
is_due-promised :
    (f : Entry) (top : ℕ)
    → ((v : ℕ) → Promise (some (pos v)) f.content → v ≤ top)
    → IsRecording f
    → is_due top f ≡ false
unfolding is_due
is_due-promised f top low records = elim (Bool-cases f.is_dir) [
  | inl dir ↦ rw dir refl
  | inr file ↦ rw file (newer (scan_version (codes f.name)) f.content records low)
]
  where
    newer :
        (version : Option ℤ) (content : Option (List Sql))
        → Promise version content
        → ((v : ℕ) → Promise (some (pos v)) content → v ≤ top)
        → is_newer top version ≡ false
    newer none content h low = refl
    newer (some (negsuc n)) content h low = refl
    newer (some (pos n)) (some ss) h low = ground (arith, low n h)
    newer (some (pos n)) none h low = ground (arith, low n tt)

is_due-later :
    (f : Entry) (current top : ℕ) → current ≤ top → is_due current f ≡ false → is_due top f ≡ false
unfolding is_due
is_due-later f current top le skipped = elim (Bool-cases f.is_dir) [
  | inl dir ↦ rw dir refl
  | inr file ↦ rw file (
      later (scan_version (codes f.name)) (
        sym (ap (λ b. if b then false else is_newer current (scan_version (codes f.name))) file)
        ∙ skipped))
]
  where
    later : (version : Option ℤ) → is_newer current version ≡ false → is_newer top version ≡ false
    later none h = refl
    later (some (negsuc n)) h = refl
    later (some (pos n)) h = ground arith

abbrev AreDone : ℕ → List Entry → Type 0
AreDone top es = All (λ f. is_due top f ≡ false) es

run_entries-AreDone :
    (faults : Faults) (current top : ℕ) (es : List Entry) (db : Database)
    → All IsRecording es
    → (run_entries faults current es db).0 ≡ none
    → current ≤ top
    → highest (run_entries faults current es db).1.versions ≤ top
    → AreDone top es
run_entries-AreDone faults current top [] db records e le covered = tt
run_entries-AreDone faults current top (f ∷ es) db (record_f, records) e le covered =
    elim (Bool-cases (is_due current f)) [
      | inr skipped ↦
          let same = run_entries-skip faults current f es db skipped in
          (
            is_due-later f current top le skipped,
            run_entries-AreDone faults current top es db records (sym (ap (λ o. o.0) same) ∙ e) le
                (subst (λ o. highest o.1.versions ≤ top) same covered),
          )
      | inl due ↦
          let (first, same) = run_entries-next faults current f es db due e in
          let ran = run_file faults f.name f.content db in
          let good = sym (ap (λ o. o.0) same) ∙ e in
          let covered' = subst (λ o. highest o.1.versions ≤ top) same covered in
          let (_, promised) = run_file-promised faults f.name f.content db first in
          let rises = run_entries-rises faults current es ran.1 good in
          (
            is_due-promised f top (λ v h. omega (arith, promised v h, rises, covered')) record_f,
            run_entries-AreDone faults current top es ran.1 records good le covered',
          )
    ]

AreDone-run_entries :
    (faults : Faults) (top : ℕ) (es : List Entry) (db : Database)
    → AreDone top es
    → run_entries faults top es db ≡ (none, db)
AreDone-run_entries faults top [] db done = unfold run_entries in refl
AreDone-run_entries faults top (f ∷ es) db (done_f, done) =
    run_entries-skip faults top f es db done_f ∙ AreDone-run_entries faults top es db done

migrations-AreRecording : All IsRecording migrations
unfolding scan_version agentic_hive.Text.Numbers.parse_int
migrations-AreRecording = (refl, (refl, (refl, (refl, (refl, (refl, tt))))))

pub current_version-working :
    (faults : Faults) (db : Database)
    → faults.selects ≡ true
    → current_version faults db ≡ highest db.versions
unfolding current_version
current_version-working faults db works = ground arith

current_version-le :
    (faults : Faults) (db : Database) → current_version faults db ≤ highest db.versions
unfolding current_version
current_version-le faults db = ground arith

module _ (faults faults' : Faults) (db db' : Database) where
  all_done : migrate faults db ≡ (none, db') → AreDone (highest db'.versions) migrations
  unfolding migrate migrate_entries
  all_done e =
      let current = current_version faults db in
      let last : (run_entries faults current migrations db).1.versions ≡ db'.versions =
        ap (λ o. o.1.versions) e in
      let rises = run_entries-rises faults current migrations db (ap (λ o. o.0) e) in
      run_entries-AreDone faults current (highest db'.versions) migrations db
        migrations-AreRecording (ap (λ o. o.0) e)
        (omega (arith, ap highest last, rises, current_version-le faults db))
        (omega (arith, ap highest last))

  -- After a start whose migrations end without an error, a later start whose version query works
  -- runs no file: it has no error and leaves the database as it is, whatever statements would fail.
  pub migrate-migrate :
      migrate faults db ≡ (none, db') → faults'.selects ≡ true → migrate faults' db' ≡ (none, db')
  unfolding migrate migrate_entries
  migrate-migrate e works =
      ap (λ n. run_entries faults' n migrations db') (current_version-working faults' db' works)
      ∙ AreDone-run_entries faults' (highest db'.versions) migrations db' (all_done e)

-- ===== src/Backup/Copying.antt =====
-- What a backup writes, and what it leaves.
use agentic_hive.Prelude.{
  ℕ, ◌⊎◌, ◌≡◌, ◌≢◌, refl, inl, inr, String, List, [], Option, none, some, Result, ok, err, lookup,
  insert, delete, lookup-insert_self, lookup-insert_ne, lookup-delete, Bool-cases, arith, str_eq,
  str_ne, str_eq_refl, ◌∙◌, ap, sym, subst, eq_iff,
}
use agentic_hive.Backup.{
  Files, Tools, Outcome, run, put, resolved, emptied, copied, pinged, written, removal, Temp,
  handle_backup, with_temp, sent, dropped,
}

lookup-delete_self : (path : String) (fs : Files) → lookup path (delete path fs) ≡ none
lookup-delete_self path fs = ground (arith, lookup-delete path path fs, str_eq_refl path)

lookup-delete_other :
    (path p : String) (fs : Files) → path ≢ p → lookup p (delete path fs) ≡ lookup p fs
lookup-delete_other path p fs other = ground (arith, lookup-delete path p fs, str_ne path p other)

put-other :
    (path p : String) (content : Option (List ℕ)) (fs : Files)
    → path ≢ p
    → lookup p (put path content fs) ≡ lookup p fs
put-other path p none fs other = lookup-delete_other path p fs other
put-other path p (some content) fs other = lookup-insert_ne path p content fs other

lookup-put :
    (path : String) (content : Option (List ℕ)) (fs : Files)
    → lookup path (put path content fs) ≡ content
lookup-put path none fs = lookup-delete_self path fs
lookup-put path (some content) fs = lookup-insert_self path content fs

module _ (tools : Tools) (src dst p : String) (not_dst : dst ≢ p) (not_src : src ≢ p) where
  written-other :
      (made : Result String (List ℕ)) (fs : Files)
      → lookup p (written tools dst made fs).1 ≡ lookup p fs
  unfolding written
  written-other (err e) fs = put-other dst p tools.left fs not_dst
  written-other (ok copy) fs = lookup-insert_ne dst p copy fs not_dst

  pinged-other :
      (o : Option String) (fs : Files) → lookup p (pinged tools src dst o fs).1 ≡ lookup p fs
  unfolding pinged
  pinged-other (some e) fs = refl
  pinged-other none fs = written-other (tools.vacuum (lookup src fs)) fs

  copied-other :
      (o : Option String) (fs : Files) → lookup p (copied tools src dst o fs).1 ≡ lookup p fs
  unfolding copied
  copied-other (some e) fs = refl
  copied-other none fs =
      let found = tools.settled (lookup src fs) in
      pinged-other (tools.pings src) (put src found fs) ∙ put-other src p found fs not_src

  emptied-other :
      (o : Option String) (fs : Files) → lookup p (emptied tools src dst o fs).1 ≡ lookup p fs
  unfolding emptied
  emptied-other (some e) fs = refl
  emptied-other none fs =
      copied-other (tools.opens src) (delete dst fs) ∙ lookup-delete_other dst p fs not_dst

  -- A backup leaves every file but the source and the destination as it is.
  run-other :
      (output : String) (fs : Files)
      → tools.abs output ≡ ok dst
      → lookup p (run tools src output fs).1 ≡ lookup p fs
  unfolding run resolved
  run-other output fs is = rw (is, resolved) (emptied-other (removal tools dst (lookup dst fs)) fs)

-- The copy of the source is at the destination; or there is an error, and nothing is there but what
-- a copy that fails leaves.
abbrev pub Ends : Tools → (source : Option (List ℕ)) → (dst : String) → Outcome → Type 0
Ends tools source dst result =
    ((copy : List ℕ) × (result.0 ≡ none)
      × (tools.vacuum (tools.settled source) ≡ ok copy)
      × (lookup dst result.1 ≡ some copy))
    ⊎ ((e : String) × (result.0 ≡ some e)
        × ((lookup dst result.1 ≡ none) ⊎ (lookup dst result.1 ≡ tools.left)))

module _ (tools : Tools) (src dst : String) (fs : Files) (other : dst ≢ src)
    (clear : lookup dst fs ≡ none) where
  written-Ends :
      (made : Result String (List ℕ)) (fs' : Files)
      → tools.vacuum (tools.settled (lookup src fs)) ≡ made
      → Ends tools (lookup src fs) dst (written tools dst made fs')
  unfolding written
  written-Ends (err e) fs' h = inr (_, refl, inr (lookup-put dst tools.left fs'))
  written-Ends (ok copy) fs' h = inl (copy, refl, h, lookup-insert_self dst copy fs')

  pinged-Ends :
      (o : Option String)
      → let fs' = put src (tools.settled (lookup src fs)) fs in
        Ends tools (lookup src fs) dst (pinged tools src dst o fs')
  unfolding pinged
  pinged-Ends (some e) =
      inr (_, refl, inl (put-other src dst _ fs (λ same. other (sym same)) ∙ clear))
  pinged-Ends none =
      written-Ends _ _ (ap tools.vacuum (sym (lookup-put src (tools.settled (lookup src fs)) fs)))

  copied-Ends : (o : Option String) → Ends tools (lookup src fs) dst (copied tools src dst o fs)
  unfolding copied
  copied-Ends (some e) = inr (_, refl, inl clear)
  copied-Ends none = pinged-Ends (tools.pings src)

removal-none :
    (tools : Tools) (dst : String) (there : Option (List ℕ))
    → tools.remove dst ≡ none
    → removal tools dst there ≡ none
removal-none tools dst none works = refl
removal-none tools dst (some old) works = works

-- A backup from a database to another path, which resolves and where a file can be removed, leaves
-- every other file as it is. And either there is no error, and the destination has the copy
-- of the database; or there is an error, and the file that was at the destination before is gone:
-- nothing is there, or what SQLite leaves of a copy that fails.
pub run-Ends :
    (tools : Tools) (src dst output p : String) (fs : Files)
    → tools.abs output ≡ ok dst
    → tools.remove dst ≡ none
    → dst ≢ src
    → dst ≢ p
    → src ≢ p
    → Ends tools (lookup src fs) dst (run tools src output fs)
      × (lookup p (run tools src output fs).1 ≡ lookup p fs)
unfolding run resolved emptied
run-Ends tools src dst output p fs is works other not_dst not_src = (
  subst (λ source. Ends tools source dst (run tools src output fs))
      (lookup-delete_other dst src fs other)
      (rw (is, resolved, removal-none tools dst (lookup dst fs) works)
        (copied-Ends tools src dst (delete dst fs) other (lookup-delete_self dst fs)
          (tools.opens src))),
  run-other tools src dst p not_dst not_src output fs is,
)

module _ (tools : Tools) (temp : Temp) (timestamp db_path tmp p : String) (fs : Files) where
  sent-files : (o : Outcome) → (sent tools temp timestamp tmp o).1 ≡ dropped tools tmp o.1
  unfolding sent
  sent-files (some e, fs') = refl
  sent-files (none, fs') = refl

  dropped-delete : (fs' : Files) → tools.remove tmp ≡ none → dropped tools tmp fs' ≡ delete tmp fs'
  dropped-delete fs' works = rw works refl

  -- The temporary file is made and removed, the backup is written, and the file is removed.
  files_after : Files → Files
  files_after given = delete tmp (run tools db_path tmp (delete tmp (insert tmp [] given))).1

  files_after-same :
      db_path ≢ p
      → tools.abs tmp ≡ ok tmp
      → lookup tmp fs ≡ none
      → lookup p (files_after fs) ≡ lookup p fs
  unfolding files_after
  files_after-same apart absolute fresh = elim (Bool-cases (str_eq tmp p)) [
    | inl same ↦
        let e = (eq_iff tmp p).0 same in
        subst (λ q. lookup q (files_after fs) ≡ lookup q fs) e
          (lookup-delete_self tmp _ ∙ sym fresh)
    | inr differs ↦
        let other : tmp ≢ p = λ e. ground (arith, eq_iff tmp p, differs, e) in
        let given = delete tmp (insert tmp [] fs) in
        lookup-delete_other tmp p (run tools db_path tmp given).1 other
        ∙ run-other tools db_path tmp p other apart tmp given absolute
        ∙ lookup-delete_other tmp p (insert tmp [] fs) other
        ∙ lookup-insert_ne tmp p [] fs other
  ]

  -- `handleBackup`, with a temporary path where nothing was, and which is absolute and can be removed,
  -- leaves every file but the database as it was, whatever fails.
  pub handle_backup-files :
      db_path ≢ p
      → temp.tmp ≡ some tmp
      → lookup tmp fs ≡ none
      → tools.abs tmp ≡ ok tmp
      → tools.remove tmp ≡ none
      → lookup p (handle_backup tools temp timestamp db_path fs).1 ≡ lookup p fs
  unfolding handle_backup with_temp
  handle_backup-files apart made fresh absolute works =
      let before = dropped tools tmp (insert tmp [] fs) in
      let ran = run tools db_path tmp before in
      rw (made, with_temp)
        (ap (lookup p) (
            sent-files ran
            ∙ dropped-delete ran.1 works
            ∙ ap (λ f. delete tmp (run tools db_path tmp f).1)
                (dropped-delete (insert tmp [] fs) works))
          ∙ unfold files_after in files_after-same apart absolute fresh)

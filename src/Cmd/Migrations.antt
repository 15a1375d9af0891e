-- ===== src/Cmd/Migrations.antt =====
-- cmd/browser-automation-service/main.go, applyMigrations: the scripts that prepare the database. The
-- file system, the pool and the database are parameters; `D` is the database's and the pool's state.
use browser_automation_byte.Prelude.{
  String, ◌≡◌, ◌↔◌, refl, ap, Option, none, some, inl, inr, List, [], ◌∷◌,
}
use Prim.Native.String.{◌++◌ as str_append}
use browser_automation_byte.Core.Errors.{GoError, plain, wrapped}
use browser_automation_byte.Core.Reply.{Reply, ok, fail, fail_with, Reply-cases}
use browser_automation_byte.App.Memory.Texts.{str_ltb}
use browser_automation_byte.App.Memory.Sort.{sort}

-- `filepath.Join`, `filepath.Glob`, `os.ReadFile`, and of the pool `Acquire`, `Exec` with the reading of
-- all its results, and `Release`
pub record Database (D : Type 0) : Type 0 where
  pub join : String → String → String
  pub glob : String → Reply (List String)
  pub read_file : String → Reply String
  pub acquire : D → Option GoError × D
  pub exec : String → D → Option GoError × D
  pub release_conn : D → D

module _ {D : Type 0} (database : Database D) where
  open database use {join, glob, read_file, acquire, exec, release_conn}

  abbrev unread : String → GoError → D → Option GoError × D
  unread file err d = (some (wrapped (str_append "read migration " (str_append file ": ")) err), d)

  -- What follows an execution: the rest of the files, or the error
  abbrev after_exec : String → Option GoError × D → Option GoError × D → Option GoError × D
  after_exec file (none, d) rest = rest
  after_exec file (some err, d) rest =
      (some (wrapped (str_append "apply migration " (str_append file ": ")) err), d)

  -- The loop of `applyMigrations`, on the connection that it has
  unfoldable pub apply_files : List String → D → Option GoError × D
  apply_files [] d = (none, d)
  apply_files (file ∷ files) d = elim (read_file file) [
    | ok content ↦
        let rest = apply_files files (exec content d).1 in after_exec file (exec content d) rest
    | fail err ↦ unread file err d
    | fail_with content err ↦ unread file err d
  ]

  abbrev released : Option GoError × D → Option GoError × D
  released (err, d) = (err, release_conn d)

  abbrev on_connection : List String → Option GoError × D → Option GoError × D
  on_connection files (some err, d) =
      (some (wrapped "acquire postgres connection for migrations: " err), d)
  on_connection files (none, d) = released (apply_files files d)

  abbrev apply_sorted : String → List String → D → Option GoError × D
  apply_sorted dir [] d =
      (some (plain (str_append "browser automation migrations not found in " dir)), d)
  apply_sorted dir (file ∷ files) d = on_connection (file ∷ files) (acquire d)

  abbrev unlisted : GoError → Option GoError
  unlisted err = some (wrapped "list browser automation migrations: " err)

  -- `applyMigrations`
  unfoldable pub apply_migrations : String → D → Option GoError × D
  unfolding apply_files
  apply_migrations dir d = elim (glob (join dir "*.sql")) [
    | ok files ↦ apply_sorted dir (sort str_ltb files) d
    | fail err ↦ (unlisted err, d)
    | fail_with files err ↦ (unlisted err, d)
  ]

  -- Scripts that are read and executed one after the other, each without an error
  pub data Executes : List String → D → D → Type 0 where
    nothing : (d : D) → Executes [] d d
    next :
        (file : String) (content : String) (files : List String) (d d' d'' : D)
        → read_file file ≡ ok content
        → exec content d ≡ (none, d')
        → Executes files d' d''
        → Executes (file ∷ files) d d''

  after_exec-ok :
      (file : String) (done rest : Option GoError × D) (d' : D)
      → after_exec file done rest ≡ (none, d')
      → (done ≡ (none, done.1)) × (rest ≡ (none, d'))
  after_exec-ok file (none, d) rest d' h = (refl, h)
  after_exec-ok file (some err, d) rest d' h = cc

  apply_files-Executes :
      (files : List String) (d d' : D) → apply_files files d ≡ (none, d') → Executes files d d'
  unfolding apply_files
  apply_files-Executes [] d d' h = let same : d ≡ d' = ap (λ r. r.1) h in rw (← same) (nothing d)
  apply_files-Executes (file ∷ files) d d' h = elim (Reply-cases (read_file file)) [
    | inl (content, r) ↦
        let done = exec content d in
        let again : after_exec file done (apply_files files done.1) ≡ (none, d') =
          rw (r, apply_files) at h in
        let (e, rest) = after_exec-ok file done (apply_files files done.1) d' again in
        next file content files d done.1 d' r e (apply_files-Executes files done.1 d' rest)
    | inr (inl (err, r)) ↦
        let wrong : unread file err d ≡ (none, d') = rw (r, apply_files) at h in cc
    | inr (inr (content, err, r)) ↦
        let wrong : unread file err d ≡ (none, d') = rw (r, apply_files) at h in cc
  ]

  Executes-apply_files :
      {files : List String} {d d' : D} → Executes files d d' → apply_files files d ≡ (none, d')
  unfolding apply_files
  Executes-apply_files (nothing d) = refl
  Executes-apply_files (next file text files d d' d'' r e rest) =
      rw (r, apply_files) (rw (e) (Executes-apply_files rest))

  -- A run of all the scripts of a directory: there is one at least, a connection is taken, they are
  -- executed on it in the order of their names, and it is given back.
  pub record IsMigrated (dir : String) (d d' : D) : Type 0 where
    pub first : String
    pub others : List String
    pub found : List String
    pub connected : D
    pub executed : D
    pub glob_ok : glob (join dir "*.sql") ≡ ok found
    pub sorted : sort str_ltb found ≡ first ∷ others
    pub acquired : acquire d ≡ (none, connected)
    pub executes : Executes (first ∷ others) connected executed
    pub given_back : release_conn executed ≡ d'

  on_connection-Executes :
      (files : List String) (got : Option GoError × D) (d' : D)
      → on_connection files got ≡ (none, d')
      → (d'' : D) × (got ≡ (none, got.1)) × Executes files got.1 d'' × (release_conn d'' ≡ d')
  on_connection-Executes files (some err, d) d' h = cc
  on_connection-Executes files (none, d) d' h =
      let done = apply_files files d in
      let ended : done.0 ≡ none = ap (λ r. r.0) h in
      (
        done.1,
        refl,
        apply_files-Executes files d done.1 (ap (λ err. (err, done.1)) ended),
        ap (λ r. r.1) h,
      )

  apply_sorted-IsMigrated :
      (dir : String) (found files : List String) (d d' : D)
      → glob (join dir "*.sql") ≡ ok found
      → sort str_ltb found ≡ files
      → apply_sorted dir files d ≡ (none, d')
      → IsMigrated dir d d'
  apply_sorted-IsMigrated dir found [] d d' g s h = cc
  apply_sorted-IsMigrated dir found (file ∷ files) d d' g s h =
      let (executed, acquired, executes, given_back) =
        on_connection-Executes (file ∷ files) (acquire d) d' h in
      record {
        first = file;
        others = files;
        found = found;
        connected = (acquire d).1;
        executed = executed;
        glob_ok = g;
        sorted = s;
        acquired = acquired;
        executes = executes;
        given_back = given_back;
      }

  apply_migrations-IsMigrated :
      (dir : String) (d d' : D) → apply_migrations dir d ≡ (none, d') → IsMigrated dir d d'
  unfolding apply_migrations
  apply_migrations-IsMigrated dir d d' h = elim (Reply-cases (glob (join dir "*.sql"))) [
    | inl (found, g) ↦
        apply_sorted-IsMigrated dir found (sort str_ltb found) d d' g refl
          (rw (g, apply_migrations) at h)
    | inr (inl (err, g)) ↦
        let failed : Option GoError × D = (unlisted err, d) in
        let wrong : failed ≡ (none, d') = rw (g, apply_migrations) at h in cc
    | inr (inr (found, err, g)) ↦
        let failed : Option GoError × D = (unlisted err, d) in
        let wrong : failed ≡ (none, d') = rw (g, apply_migrations) at h in cc
  ]

  IsMigrated-apply_migrations :
      (dir : String) (d d' : D) → IsMigrated dir d d' → apply_migrations dir d ≡ (none, d')
  unfolding apply_migrations
  IsMigrated-apply_migrations dir d d' m =
      rw (m.glob_ok, apply_migrations)
        (rw (m.sorted) (
          rw (m.acquired)
            (rw (Executes-apply_files m.executes) (ap (λ e. (none, e)) m.given_back))))

  -- applyMigrations ends without an error exactly if there is a script, a connection is had, and the
  -- scripts are executed on it, each without an error, in the order of their names.
  pub apply_migrations_iff :
      (dir : String) (d d' : D) → (apply_migrations dir d ≡ (none, d')) ↔ IsMigrated dir d d'
  apply_migrations_iff dir d d' =
      (apply_migrations-IsMigrated dir d d', IsMigrated-apply_migrations dir d d')

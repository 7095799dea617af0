-- ===== src/Worker/Run.antt =====
-- A step of the worker is a sequence of calls on the database, and an early `?` ends it: it keeps
-- what was written before.
use genrl_downloader.Prelude.{Option, none, some}
use genrl_downloader.Text.{codes}
use genrl_downloader.Error.{Error, Result, ok, err}
use genrl_downloader.Jobs.{Db}

abbrev pub Run {ℓ} : Type ℓ → Type ℓ
Run A = Db → Result A × Db

abbrev pub after {ℓ κ} : {A : Type ℓ} {B : Type κ} → Result A × Db → (A → Run B) → Result B × Db
after (ok a, db) f = f a db
after (err e, db) f = (err e, db)

infixl 5 ◌>>=◌ ◌>>◌
abbrev pub ◌>>=◌ {ℓ κ} : {A : Type ℓ} {B : Type κ} → Run A → (A → Run B) → Run B
◌>>=◌ m f db = after (m db) f

abbrev pub ◌>>◌ {ℓ κ} : {A : Type ℓ} {B : Type κ} → Run A → Run B → Run B
m >> k = m >>= λ _. k

abbrev pub return {ℓ} : {A : Type ℓ} → A → Run A
return a db = (ok a, db)

-- A result that does not touch the database.
abbrev pub lift {ℓ} : {A : Type ℓ} → Result A → Run A
lift r db = (r, db)

-- What is read from the database.
abbrev pub reads {ℓ} : {A : Type ℓ} → (Db → A) → Run A
reads f db = (ok (f db), db)

-- A statement without a result.
abbrev pub writes : (Db → Db) → Run (Unit {0})
writes f db = (ok tt, f db)

-- `query_row(…)?`
abbrev pub row {ℓ} : {A : Type ℓ} → Option A → Result A
row none = err (Error.db (codes "Query returned no rows"))
row (some a) = ok a

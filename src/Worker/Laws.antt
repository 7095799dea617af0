-- ===== src/Worker/Laws.antt =====
-- A step moves its job by one move of the diagram at most: the rules.
pub mod Parts
pub mod Moves
pub mod Step
pub mod Stuck
pub mod Large
pub mod Consent
pub mod Fruitless
mod Tests
use genrl_downloader.Prelude.{
  ℕ, ◌+◌, Bool, true, false, ◌≡◌, refl, sym, ap, ◌∙◌, ◌⊎◌, inl, inr, subst, none, some, Option,
  if◌then◌else◌, arith,
}
use genrl_downloader.Error.{Result, ok, err}
use genrl_downloader.Text.{Text}
use genrl_downloader.Models.JobState.{JobState}
use genrl_downloader.Jobs.{Job, Db, find_job, update_job}
use genrl_downloader.Jobs.Diagram.{Move}
use genrl_downloader.Jobs.Move.{MoveOptions, moved_row}
use genrl_downloader.Jobs.Move.Legal.{transition_cases, moved_row-id}
use genrl_downloader.Jobs.Move.Rows.{find_update_self}
use genrl_downloader.Worker.Run.{Run, after, ◌>>=◌, ◌>>◌, writes, return}
use genrl_downloader.Worker.World.{World}
use genrl_downloader.Worker.Helpers.{moves}
use genrl_downloader.Worker.Inbox.Laws.{Stands}

-- The job is there, in the state `s` or in one that follows it.
abbrev pub Settled : ℕ → JobState → Db → Type 0
Settled id s db = (t : JobState) × ((t ≡ s) ⊎ Move s t) × Stands id t db

module _ (id : ℕ) (s : JobState) where
  -- The call leaves the job in its state.
  pub record Calm {A : Type 0} (m : Run A) : Type 0 where
    pub keeps : (db : Db) → Stands id s db → Stands id s (m db).1

  -- The call settles the job.
  pub record Ends {A : Type 0} (m : Run A) : Type 0 where
    pub settles : (db : Db) → Stands id s db → Settled id s (m db).1

  pub Calm-Ends : {A : Type 0} {m : Run A} → Calm m → Ends m
  Calm-Ends c = record { settles = λ db h. (s, inl refl, c.keeps db h) }

  after-Calm :
      {A B : Type 0} (r : Result A) (db : Db) (f : A → Run B)
      → Stands id s db
      → ((a : A) → Calm (f a))
      → Stands id s (after (r, db) f).1
  after-Calm (ok a) db f h c = (c a).keeps db h
  after-Calm (err e) db f h c = h

  pub then-Calm :
      {A B : Type 0} (m : Run A) (f : A → Run B) → Calm m → ((a : A) → Calm (f a)) → Calm (m >>= f)
  then-Calm m f c d = record { keeps = λ db h. after-Calm (m db).0 (m db).1 f (c.keeps db h) d }

  after-Ends :
      {A B : Type 0} (r : Result A) (db : Db) (f : A → Run B)
      → Stands id s db
      → ((a : A) → Ends (f a))
      → Settled id s (after (r, db) f).1
  after-Ends (ok a) db f h c = (c a).settles db h
  after-Ends (err e) db f h c = (s, inl refl, h)

  pub then-Ends :
      {A B : Type 0} (m : Run A) (f : A → Run B) → Calm m → ((a : A) → Ends (f a)) → Ends (m >>= f)
  then-Ends m f c d = record { settles = λ db h. after-Ends (m db).0 (m db).1 f (c.keeps db h) d }

  pub seq-Calm : {A B : Type 0} (m : Run A) (k : Run B) → Calm m → Calm k → Calm (m >> k)
  seq-Calm m k c d = then-Calm m (λ _. k) c (λ _. d)

  pub seq-Ends : {A B : Type 0} (m : Run A) (k : Run B) → Calm m → Ends k → Ends (m >> k)
  seq-Ends m k c d = then-Ends m (λ _. k) c (λ _. d)

  after_return :
      {A B : Type 0} (r : Result A) (db : Db) (b : B)
      → Settled id s db
      → Settled id s (after (r, db) (λ _. return b)).1
  after_return (ok a) db b h = h
  after_return (err e) db b h = h

  pub return-Ends : {A B : Type 0} (m : Run A) (b : B) → Ends m → Ends (m >> return b)
  return-Ends m b c = record { settles = λ db h. after_return (m db).0 (m db).1 b (c.settles db h) }

  after_stop :
      {A B : Type 0} (r : Result A) (db : Db) (f : A → Run B)
      → ((a : A) → r ≡ ok a → (db : Db) → (f a db).1 ≡ db)
      → Settled id s db
      → Settled id s (after (r, db) f).1
  after_stop (ok a) db f k h = subst (Settled id s) (sym (k a refl db)) h
  after_stop (err e) db f k h = h

  -- What follows on the results that the call gives writes nothing.
  pub stop-Ends :
      {A B : Type 0} (m : Run A) (f : A → Run B)
      → Ends m
      → ((start : Db) (a : A) → (m start).0 ≡ ok a → (db : Db) → (f a db).1 ≡ db)
      → Ends (m >>= f)
  stop-Ends m f c k = record {
    settles = λ db h. after_stop (m db).0 (m db).1 f (k db) (c.settles db h);
  }

  pub branch-Calm :
      {A : Type 0} (b : Bool) {x y : Run A} → Calm x → Calm y → Calm (if b then x else y)
  branch-Calm true p q = p
  branch-Calm false p q = q

  pub branch-Ends :
      {A : Type 0} (b : Bool) {x y : Run A} → Ends x → Ends y → Ends (if b then x else y)
  branch-Ends true p q = p
  branch-Ends false p q = q

  -- A call that leaves the jobs as they are.
  pub same-Calm : {A : Type 0} (m : Run A) → ((db : Db) → (m db).1.jobs ≡ db.jobs) → Calm m
  same-Calm m e = record { keeps = λ db (j, found, at). (j, ap (find_job id) (e db) ∙ found, at) }

  -- An UPDATE of the job that keeps its id and its state.
  pub update-Calm :
      {A : Type 0} (m : Run A) (f : Db → Job → Job)
      → ((db : Db) → (m db).1.jobs ≡ update_job id (f db) db.jobs)
      → ((db : Db) (j : Job) → ((f db j).id ≡ j.id) × ((f db j).state ≡ j.state))
      → Calm m
  update-Calm m f e k = record {
    keeps = λ db (j, found, at). (
      f db j,
      ap (find_job id) (e db) ∙ find_update_self id (f db) db.jobs {j = j} (λ r. (k db r).0) found,
      (k db j).1 ∙ at,
    );
  }

follows : {s t : JobState} → (s ≡ t) ⊎ Move s t → (t ≡ s) ⊎ Move s t
follows (inl e) = inl (sym e)
follows (inr m) = inr m

pub moves-Ends :
    (w : World) (j : Job) (s to : JobState) (reason : Text) (o : MoveOptions)
    → Ends j.id s (moves w j to reason o)
unfolding moves moved_row
moves-Ends w j s to reason o = record {
  settles = λ db (r, found, at). elim (transition_cases db w.now j.id to reason o) [
    | inl same ↦ (s, inl refl, subst (Stands j.id s) (sym same) (r, found, at))
    | inr (from, (k, k_found, at_from, running, legal), rows) ↦
        let same : from ≡ s = ground (arith, found, k_found, at, at_from) in
        (
          to,
          follows (subst (λ t. (t ≡ to) ⊎ Move t to) same legal),
          (
            moved_row to reason o w.now k,
            ap (find_job j.id) rows
                ∙ find_update_self j.id (moved_row to reason o w.now) db.jobs {j = k}
                    (moved_row-id to reason o w.now) k_found,
            refl,
          ),
        )
  ];
}

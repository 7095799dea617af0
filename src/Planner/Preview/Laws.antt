-- ===== src/Planner/Preview/Laws.antt =====
-- What the preview lists.
use genrl_downloader.Prelude.{
  ◌-◌, length, not, false, ◌≡◌, refl, List, [], ◌∷◌, ◌++◌, All, All-append, Bool-cases, inl, inr,
  unwrap_or, arith, subst,
}
use genrl_downloader.Error.{Result, ok, err, ◌>>=◌}
use genrl_downloader.Filename.{Regex}
use genrl_downloader.Rules.{Json}
use genrl_downloader.Season.{SeasonChain, Want, wants, skip}
use genrl_downloader.Season.Walk.{Overrides, wanted}
use genrl_downloader.Jobs.{Db}
use genrl_downloader.Planner.{MalList, chains}
use genrl_downloader.Planner.Preview.{
  PlannedEpisode, SkipNote, PlanPreview, PlanSettings, has_episode, overrides_of, offer, offers,
  build_preview,
}

-- The episode has no row.
abbrev pub IsNew : Db → PlannedEpisode → Type 0
IsNew db e = has_episode e.mal_id e.episode db.episodes ≡ false

offer-IsNew : (db : Db) (chain : SeasonChain) (w : Want) → All (IsNew db) (offer db chain w).0
unfolding offer
offer-IsNew db chain (wants w) =
    elim (Bool-cases (has_episode w.mal_id (unwrap_or w.episode 10) db.episodes)) [
      | inl known ↦ rw (known, offer) tt
      | inr new ↦ rw (new, offer) (new, tt)
    ]
offer-IsNew db chain (skip why watched) = tt

joined :
    (re : Regex) (s : PlanSettings) (db : Db) (chain : SeasonChain) (overrides : Result Overrides)
    (more : Result (List PlannedEpisode × List SkipNote))
    {found : List PlannedEpisode × List SkipNote}
    → ((rest : List PlannedEpisode × List SkipNote) → more ≡ ok rest → All (IsNew db) rest.0)
    → (overrides >>= λ o. more >>= λ m.
        let here = offer db chain (wanted re chain s.auto_plan_to_watch o) in
        ok (here.0 ++ m.0, here.1 ++ m.1))
      ≡ ok found
    → All (IsNew db) found.0
joined re s db chain (ok o) (ok m) {found} h e =
    let here = offer db chain (wanted re chain s.auto_plan_to_watch o) in
    let same : here.0 ++ m.0 ≡ found.0 = ground (arith, e) in
    subst (All (IsNew db)) same (
      All-append (IsNew db) here.0 m.0
        (offer-IsNew db chain (wanted re chain s.auto_plan_to_watch o)) (h m refl))
joined re s db chain (ok o) (err x) {found} h e = absurd (ground arith)
joined re s db chain (err x) more {found} h e = absurd (ground arith)

offers-IsNew :
    (re : Regex) (json : Json) (s : PlanSettings) (db : Db) (chains : List SeasonChain)
    {found : List PlannedEpisode × List SkipNote}
    → offers re json s db chains ≡ ok found
    → All (IsNew db) found.0
unfolding offers
offers-IsNew re json s db [] {found} h =
    let same : [] ≡ found.0 = ground (arith, h) in subst (All (IsNew db)) same tt
offers-IsNew re json s db (chain ∷ rest) {found} h =
    joined re s db chain (overrides_of json chain db) (offers re json s db rest) {found = found}
      (λ r e. offers-IsNew re json s db rest {found = r} e) h

from_offers :
    (s : PlanSettings) (db : Db) (r : Result (List PlannedEpisode × List SkipNote))
    {p : PlanPreview}
    → ((f : List PlannedEpisode × List SkipNote) → r ≡ ok f → All (IsNew db) f.0)
    → (r >>= λ found. ok (record {
      episodes = found.0;
      skipped = found.1;
      cap = s.daily_torrent_cap;
      over_cap = length found.0 - s.daily_torrent_cap;
      awaiting_confirmation = not s.first_run_complete;
    }))
      ≡ ok p
    → All (IsNew db) p.episodes
from_offers s db (ok f) {p} h e =
    let same : f.0 ≡ p.episodes = ground (arith, e) in subst (All (IsNew db)) same (h f refl)
from_offers s db (err x) {p} h e = absurd (ground arith)

-- A preview lists no episode that has a row, whatever the row's state.
pub build_preview-IsNew :
    (re : Regex) (json : Json) (db : Db) (list : MalList) (s : PlanSettings) {p : PlanPreview}
    → build_preview re json db list s ≡ ok p
    → All (IsNew db) p.episodes
unfolding build_preview
build_preview-IsNew re json db list s {p} h =
    from_offers s db (offers re json s db (chains list)) {p = p}
      (λ f e. offers-IsNew re json s db (chains list) {found = f} e) h

-- ===== src/Jobs/Enqueue/Candidates.antt =====
-- Candidates are unique by info hash.
use genrl_downloader.Prelude.{
  ℕ, ◌≡◌, refl, true, none, some, List, [], ◌∷◌, arith, length, subst, sym, ◌∙◌,
}
use genrl_downloader.Text.{Text}
use genrl_downloader.Text.Laws.{text_eq_refl}
use genrl_downloader.Jobs.{Torrent, Db}
use genrl_downloader.Jobs.Enqueue.{
  RememberedCandidate, find_torrent, upsert, inserted, refreshed, remember_candidate, mark_rejected,
  reject_candidate,
}

upsert_known :
    (id now : ℕ) (c : RememberedCandidate) (ts : List Torrent) {t : Torrent}
    → find_torrent c.info_hash ts ≡ some t
    → (find_torrent c.info_hash (upsert id now c ts) ≡ some (refreshed c t))
      × (length (upsert id now c ts) ≡ length ts)
unfolding find_torrent upsert
upsert_known id now c [] {t} e = absurd (cc)
upsert_known id now c (k ∷ ts) {t} e = ground (arith, upsert_known id now c ts {t = t})

upsert_new :
    (id now : ℕ) (c : RememberedCandidate) (ts : List Torrent)
    → find_torrent c.info_hash ts ≡ none
    → find_torrent c.info_hash (upsert id now c ts) ≡ some (inserted id now c)
unfolding find_torrent upsert
upsert_new id now c [] e = ground (arith, text_eq_refl c.info_hash)
upsert_new id now c (k ∷ ts) e = ground (arith, upsert_new id now c ts)

remember_known :
    (d : Db) (now : ℕ) (c : RememberedCandidate) (t : Torrent)
    → find_torrent c.info_hash d.torrents ≡ some t
    → let (id, d') = remember_candidate d now c in
      (id ≡ t.id)
      × (find_torrent c.info_hash d'.torrents ≡ some (refreshed c t))
      × (length d'.torrents ≡ length d.torrents)
unfolding remember_candidate
remember_known d now c t e =
    let (found, size) = upsert_known d.next_torrent now c d.torrents {t = t} e in
    rw (e, remember_candidate) (refl, found, size)

remember_new :
    (d : Db) (now : ℕ) (c : RememberedCandidate)
    → find_torrent c.info_hash d.torrents ≡ none
    → let (id, d') = remember_candidate d now c in
      (id ≡ d.next_torrent)
      × (find_torrent c.info_hash d'.torrents ≡ some (inserted d.next_torrent now c))
unfolding remember_candidate
remember_new d now c e =
    rw (e, remember_candidate) (refl, upsert_new d.next_torrent now c d.torrents e)

-- Remembering a candidate and then another with the same info hash names one row for both and adds
-- no second one; the row keeps the name and the magnet link of the first, with the seeders and the
-- size of the second.
pub remember_candidate_twice :
    (d : Db) (now later : ℕ) (c c' : RememberedCandidate)
    → c'.info_hash ≡ c.info_hash
    → find_torrent c.info_hash d.torrents ≡ none
    → let (id, d') = remember_candidate d now c in
      let (id', d'') = remember_candidate d' later c' in
      (id' ≡ id)
      × (length d''.torrents ≡ length d'.torrents)
      × ((t : Torrent) × (find_torrent c.info_hash d''.torrents ≡ some t)
          × (t.id ≡ id)
          × (t.name ≡ c.name)
          × (t.magnet ≡ c.magnet)
          × (t.seeders ≡ c'.seeders)
          × (t.size_bytes ≡ c'.size_bytes))
unfolding inserted refreshed
remember_candidate_twice d now later c c' same new =
    let t = inserted d.next_torrent now c in
    let (id, row) = remember_new d now c new in
    let (id', row', size) = remember_known (remember_candidate d now c).1 later c' t (
      subst (λ h. find_torrent h (remember_candidate d now c).1.torrents ≡ some t) (sym same)
        row) in
    (
      id' ∙ sym id,
      size,
      (
        refreshed c' t,
        subst
            (λ h.
              find_torrent h (remember_candidate (remember_candidate d now c).1 later c').1.torrents
              ≡ some (refreshed c' t))
            same row',
        sym id,
        refl,
        refl,
        refl,
        refl,
      ),
    )

mark_rejected_found :
    (hash : Text) (ts : List Torrent) {t : Torrent}
    → find_torrent hash ts ≡ some t
    → (find_torrent hash (mark_rejected hash ts).0 ≡ some (record t { rejected = true }))
      × ((mark_rejected hash ts).1 ≡ true)
unfolding find_torrent mark_rejected
mark_rejected_found hash [] {t} e = absurd (cc)
mark_rejected_found hash (k ∷ ts) {t} e = ground (arith, mark_rejected_found hash ts {t = t})

-- A candidate once rejected stays rejected: seeing it in a later search refreshes its row and
-- leaves the mark.
pub rejected_stays :
    (d : Db) (later : ℕ) (c : RememberedCandidate) (t : Torrent)
    → find_torrent c.info_hash d.torrents ≡ some t
    → let (changed, d') = reject_candidate d c.info_hash in
      let d'' = (remember_candidate d' later c).1 in
      (changed ≡ true)
      × ((t' : Torrent) × (find_torrent c.info_hash d''.torrents ≡ some t')
          × (t'.id ≡ t.id)
          × (t'.rejected ≡ true)
          × (t'.seeders ≡ c.seeders))
unfolding reject_candidate refreshed
rejected_stays d later c t e =
    let (found, changed) = mark_rejected_found c.info_hash d.torrents {t = t} e in
    let (_, row, _) =
      remember_known (reject_candidate d c.info_hash).1 later c (record t { rejected = true })
        found in
    (changed, (refreshed c (record t { rejected = true }), row, refl, refl, refl))

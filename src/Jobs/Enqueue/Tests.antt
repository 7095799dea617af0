-- ===== src/Jobs/Enqueue/Tests.antt =====
-- Enqueueing, candidates and due jobs (core/crates/genrl-core/src/jobs).
use genrl_downloader.Prelude.{◌≡◌, refl, false, none, some, [], ◌∷◌}
use genrl_downloader.Text.{codes, text_eq}
use genrl_downloader.Error.{ok}
use genrl_downloader.Jobs.{Torrent, Db, find_episode}
use genrl_downloader.Jobs.Enqueue.{enqueue_search, RememberedCandidate, find_torrent}
use genrl_downloader.Jobs.Sample.{queue}

abbrev searching : Db
searching = record queue { jobs = [] }

enqueued : (enqueue_search searching 40 3).0 ≡ ok 8
unfolding enqueue_search
enqueued = refl

known : find_episode 3 queue.episodes ≡ some 21
unfolding find_episode
known = refl

abbrev candidate : RememberedCandidate
candidate = record {
  info_hash = codes "ab12";
  name = codes "Show - 03";
  magnet = codes "magnet:?xt=urn:btih:ab12";
  seeders = 40;
  leechers = 2;
  size_bytes = 900;
  group = none;
  resolution = some (codes "1080p");
  source_url = none;
  score = 71;
  mal_id = some 21;
}

abbrev busier : RememberedCandidate
busier = record candidate { seeders = 55; name = codes "Show 03" }

unknown : find_torrent candidate.info_hash queue.torrents ≡ none
unfolding find_torrent
unknown = refl

abbrev kept : Torrent
kept = record {
  id = 1;
  info_hash = codes "ab12";
  name = codes "Show - 03";
  magnet = codes "magnet:?xt=urn:btih:ab12";
  seeders = 40;
  leechers = 2;
  size_bytes = 900;
  group = none;
  resolution = some (codes "1080p");
  source_url = none;
  score = 71;
  mal_id = some 21;
  found_at = 40;
  rejected = false;
}

abbrev remembered : Db
remembered = record queue { torrents = kept ∷ [] }

present : find_torrent busier.info_hash remembered.torrents ≡ some kept
unfolding find_torrent text_eq
present = refl

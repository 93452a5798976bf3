-- ===== src/Tests/Edge.antt =====
-- Runs of services/edge-agent/cmd/edge-agent/cache.go.
use smart_deploy_linux.Prelude.{
  ℕ, ◌<◌, ◌+◌, ◌≤◌, ◌≡◌, ◌≢◌, ◌↔◌, refl, arith, true, false, none, some, List, [], ◌∷◌, ◌++◌, Bytes,
  codes, All, bytes_eq, has_prefix,
}
use smart_deploy_linux.Drivers.Sort.{stable_sort, insert}
use smart_deploy_linux.Edge.{
  File, World, evict_for, evict_oldest, total, ensure, wanted_sha, key_sha, hex_run, fill,
  store_body, make_room,
}
use smart_deploy_linux.Edge.Path.{
  cache_path, join, clean, clean_parts, clean_onto, clean_part, back_up, split, reverse_onto,
  text_of, trim_prefix,
}
use smart_deploy_linux.Edge.Inside.{IsProper, cache_path-IsProper}
use smart_deploy_linux.Edge.Evict.{held, evict_for_iff}
use smart_deploy_linux.Prelude.Table.{find, select}
use smart_deploy_linux.Tokens.Hash.{hex}
use smart_deploy_linux.Edge.Flight.{
  Flight, stat, filling, arrive, miss, begin, ◌⇒*◌, stay, step, IsGuarded, reachable-IsGuarded,
}

path_run : cache_path (codes "/c") (codes "/static/./a/../b") ≡ some (codes "/c/static/b")
unfolding cache_path clean clean_parts clean_onto clean_part back_up split reverse_onto join text_of
    trim_prefix bytes_eq has_prefix
path_run = refl

escape_run : cache_path (codes "/c") (codes "/static/../../etc") ≡ none
unfolding cache_path clean clean_parts clean_onto clean_part back_up split reverse_onto join text_of
    trim_prefix bytes_eq has_prefix
escape_run = refl

cache_path-IsProper_example :
    (parts : List Bytes) × (parts ≢ [])
    × All IsProper parts
    × (codes "/c/static/b" ≡ codes "/c" ++ (b'/' ∷ join parts))
cache_path-IsProper_example =
    cache_path-IsProper (codes "/c") (codes "/static/./a/../b") (codes "/c/static/b") path_run

abbrev file : ℕ → Bytes → File
file mtime content = record { path = content; content = content; mtime = mtime }

abbrev files : List File
files = file 7 (codes "new!") ∷ file 3 (codes "old") ∷ []

-- Four bytes more fit under nine once the older file is gone.
evict_run : evict_for (λ _. false) 9 4 files ≡ (file 7 (codes "new!") ∷ [], true)
unfolding evict_for evict_oldest total stable_sort insert
evict_run = refl

-- An object over the limit empties the cache before it is refused.
emptied : evict_for (λ _. false) 9 10 files ≡ ([], false)
unfolding evict_for evict_oldest total stable_sort insert
emptied = refl

evict_for_iff_example :
    ((evict_for (λ _. false) 9 4 files).1 ≡ true) ↔ (held (λ _. false) files + 4 ≤ 9)
evict_for_iff_example = evict_for_iff (λ _. false) 9 4 files

evict_fine : (evict_for (λ _. false) 9 4 files).1 ≡ true
unfolding evict_for evict_oldest total stable_sort insert
evict_fine = refl

too_full : 9 < total files + 4
unfolding total
too_full = ground arith

abbrev world : World
world = record {
  now = 5;
  stuck = λ _. false;
  response = some (record { status = 200; content_length = some 2; body = some (codes "ok") });
  disk_fails = false;
}

abbrev digest : Bytes
digest = codes "00112233445566778899aabbccddeeff00112233445566778899aabbccddeeff"

abbrev blob : Bytes
blob = codes "blobs/00/" ++ (digest ++ codes "-w")

abbrev digest_bytes : Bytes
digest_bytes =
    0x00 ∷ 0x11 ∷ 0x22 ∷ 0x33 ∷ 0x44 ∷ 0x55 ∷ 0x66 ∷ 0x77 ∷ 0x88 ∷ 0x99 ∷ 0xaa ∷ 0xbb ∷ 0xcc ∷ 0xdd
    ∷ 0xee ∷ 0xff ∷ []

abbrev sha : Bytes → Bytes
sha _ = digest_bytes ++ digest_bytes

-- The digest of the key is compared, and another one is refused.
blob_run : wanted_sha (b'/' ∷ blob) ≡ some digest
unfolding wanted_sha key_sha hex_run trim_prefix has_prefix
blob_run = refl

filled_run :
    ensure sha 9 world (b'/' ∷ blob) (codes "/c/" ++ blob) []
    ≡ (record { path = codes "/c/" ++ blob; content = codes "ok"; mtime = 5 } ∷ [], true)
unfolding ensure fill store_body make_room evict_for total wanted_sha key_sha hex_run trim_prefix
    has_prefix bytes_eq hex find select
filled_run = refl

mismatch_run : ensure (λ _. []) 9 world (b'/' ∷ blob) (codes "/c/" ++ blob) [] ≡ ([], false)
unfolding ensure fill store_body make_room evict_for total wanted_sha key_sha hex_run trim_prefix
    has_prefix bytes_eq hex find select
mismatch_run = refl

abbrev idle : Flight
idle = record { cached = false; inflight = false; requests = [] }

abbrev two : Flight
two = record { cached = false; inflight = true; requests = filling ∷ stat ∷ [] }

reached : idle ⇒* two
reached = step (arrive false false []) (
    step (miss false [] [])
      (step (begin false [] []) (step (arrive false true (filling ∷ [])) stay)))

reachable-IsGuarded_example : IsGuarded two
reachable-IsGuarded_example = reachable-IsGuarded false two reached

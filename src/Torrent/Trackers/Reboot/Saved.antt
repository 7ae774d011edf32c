-- ===== src/Torrent/Trackers/Reboot/Saved.antt =====
-- The cache file holds the list, and a start reads it back.
use stremio_libtorrent_serve.Prelude.{
  ◌≡◌, inl, inr, refl, ap, ◌∙◌, Bool, true, false, ◌||◌, Option, none, some, List, [], ◌∷◌, ◌++◌,
  arith, contains, All, Bool-cases,
}
use stremio_libtorrent_serve.Prelude.Text.{Text, Text_eq, is_empty}
use stremio_libtorrent_serve.Torrent.Trackers.{
  is_tracker_url, split_trackers, add_new, parse_tracker_string, cache_text, TrackerSource,
  load_cache, start_source, same_list, write_cache, take_list, refresh_once,
}
use stremio_libtorrent_serve.Torrent.Trackers.Lists.{
  Distinct, add_new-Distinct, add_new-All, add_new-passes, add_new-new,
}
use stremio_libtorrent_serve.Torrent.Trackers.Reboot.{
  IsWord, split_trackers-word, split_trackers-words, add_new-nil, add_new-append, add_new-skip,
  strip-same,
}

-- What a parse gives: addresses without separators, none of them twice.
record IsClean (ts : List Text) : Type 0 where
  words : All IsWord ts
  passes : All (λ t. is_tracker_url t ≡ true) ts
  distinct : Distinct ts

no_empty_url : is_tracker_url [] ≡ false
unfolding is_tracker_url
no_empty_url = refl

parse-eq :
    (raw : Text) → parse_tracker_string (some raw) ≡ add_new is_tracker_url [] (split_trackers raw)
unfolding parse_tracker_string is_empty split_trackers add_new is_tracker_url
parse-eq [] = refl
parse-eq (c ∷ raw) = strip-same is_tracker_url no_empty_url [] (c ∷ raw)

parse-IsClean : (raw : Text) → IsClean (parse_tracker_string (some raw))
parse-IsClean raw = rw (parse-eq raw) (record {
  words = add_new-All is_tracker_url IsWord [] (split_trackers raw) tt (split_trackers-words raw);
  passes = add_new-passes is_tracker_url [] (split_trackers raw) tt;
  distinct = add_new-Distinct is_tracker_url [] (split_trackers raw) tt;
})

split_trackers-cache_text :
    (ts : List Text) → All IsWord ts → split_trackers (cache_text ts) ≡ ts ++ [] ∷ []
unfolding cache_text split_trackers
split_trackers-cache_text [] h = refl
split_trackers-cache_text (t ∷ ts) h =
    split_trackers-word t (cache_text ts) h.0 ∙ ap (λ ws. t ∷ ws) (split_trackers-cache_text ts h.1)

nothing-contains : (ts : List Text) → All (λ t. contains [] t ≡ false) ts
unfolding contains
nothing-contains [] = tt
nothing-contains (t ∷ ts) = (refl, nothing-contains ts)

parse-cache_text : (ts : List Text) → IsClean ts → parse_tracker_string (some (cache_text ts)) ≡ ts
parse-cache_text ts clean =
    parse-eq (cache_text ts)
    ∙ ap (add_new is_tracker_url []) (split_trackers-cache_text ts clean.words)
    ∙ add_new-append is_tracker_url [] ts ([] ∷ [])
    ∙ add_new-skip is_tracker_url no_empty_url (add_new is_tracker_url [] ts) []
    ∙ add_new-nil is_tracker_url (add_new is_tracker_url [] ts)
    ∙ add_new-new is_tracker_url [] ts clean.passes (nothing-contains ts) clean.distinct

-- A refresh: the body that was fetched, if any, and whether the cache file can be written.
unfoldable pub run : List (Option Text × Bool) → TrackerSource → TrackerSource
run [] s = s
run ((body, writable) ∷ refreshes) s = run refreshes (refresh_once body writable s).1

-- Every write succeeds.
abbrev pub AllWritten : List (Option Text × Bool) → Type 0
AllWritten refreshes = All (λ (r : Option Text × Bool). r.1 ≡ true) refreshes

-- The file is the list that is held.
record IsSaved (s : TrackerSource) : Type 0 where
  cached : s.cached ≡ true
  saved : load_cache true s.file ≡ s.trackers

refresh_once-some :
    (body : Text) (writable : Bool) (s : TrackerSource)
    → refresh_once (some body) writable s ≡ take_list writable (parse_tracker_string (some body)) s
unfolding refresh_once
refresh_once-some body writable s = refl

refresh_once-none :
    (writable : Bool) (s : TrackerSource) → refresh_once none writable s ≡ (false, s)
unfolding refresh_once
refresh_once-none writable s = refl

take_list-IsSaved :
    (parsed : List Text) (s : TrackerSource)
    → IsClean parsed
    → IsSaved s
    → IsSaved (take_list true parsed s).1
take_list-IsSaved parsed s clean h =
    elim (Bool-cases (is_empty parsed || same_list parsed s.trackers)) [
      | inl e ↦ rw e h
      | inr e ↦
          let there : IsSaved (write_cache true parsed (record s { trackers = parsed })) =
            rw h.cached (record { cached = refl; saved = parse-cache_text parsed clean }) in
          rw e there
    ]

take_list-nonempty :
    (parsed : List Text) (writable : Bool) (s : TrackerSource)
    → is_empty s.trackers ≡ false
    → is_empty (take_list writable parsed s).1.trackers ≡ false
take_list-nonempty parsed writable s h = ground arith

refresh_once-IsSaved :
    (body : Option Text) (s : TrackerSource) → IsSaved s → IsSaved (refresh_once body true s).1
refresh_once-IsSaved none s h = rw (refresh_once-none true s) h
refresh_once-IsSaved (some body) s h =
    rw (refresh_once-some body true s)
      (take_list-IsSaved (parse_tracker_string (some body)) s (parse-IsClean body) h)

refresh_once-nonempty :
    (body : Option Text) (writable : Bool) (s : TrackerSource)
    → is_empty s.trackers ≡ false
    → is_empty (refresh_once body writable s).1.trackers ≡ false
refresh_once-nonempty none writable s h = rw (refresh_once-none writable s) h
refresh_once-nonempty (some body) writable s h =
    rw (refresh_once-some body writable s)
      (take_list-nonempty (parse_tracker_string (some body)) writable s h)

run-IsSaved :
    (refreshes : List (Option Text × Bool)) (s : TrackerSource)
    → AllWritten refreshes
    → IsSaved s
    → IsSaved (run refreshes s)
unfolding run
run-IsSaved [] s w h = h
run-IsSaved ((body, writable) ∷ refreshes) s w h =
    run-IsSaved refreshes _ w.1 (rw w.0 (refresh_once-IsSaved body s h))

run-nonempty :
    (refreshes : List (Option Text × Bool)) (s : TrackerSource)
    → is_empty s.trackers ≡ false
    → is_empty (run refreshes s).trackers ≡ false
unfolding run
run-nonempty [] s h = h
run-nonempty ((body, writable) ∷ refreshes) s h =
    run-nonempty refreshes _ (refresh_once-nonempty body writable s h)

-- A source with a cache file, whatever that file held at first and whatever the fetches brought or failed
-- to bring: while the cache can be written, a source that starts anew from the cache file has the list
-- that the running one has.
pub run-restart :
    (file : Option Text) (refreshes : List (Option Text × Bool))
    → AllWritten refreshes
    → (start_source true (run refreshes (start_source true file)).file).trackers
      ≡ (run refreshes (start_source true file)).trackers
unfolding start_source
run-restart file refreshes w =
    (run-IsSaved refreshes (start_source true file) w
      (record { cached = refl; saved = refl })).saved

-- A list that is there is replaced by other lists only, never by an empty one, however the fetches and the
-- writes go.
pub run-keeps_list :
    (s : TrackerSource) (refreshes : List (Option Text × Bool))
    → is_empty s.trackers ≡ false
    → is_empty (run refreshes s).trackers ≡ false
run-keeps_list s refreshes h = run-nonempty refreshes s h

-- ===== src/Stats/Metrics/Tally.antt =====
-- The counters are the tally of what was recorded since the last reset.
use stremio_libtorrent_serve.Prelude.{
  ℕ, ◌+◌, ◌≤◌, ◌≡◌, Bool, true, false, Option, List, [], ◌∷◌, arith, if◌then◌else◌,
}
use stremio_libtorrent_serve.Prelude.Text.{Text}
use stremio_libtorrent_serve.Stats.Metrics.{
  Counters, zeroed, record_stall, record_timeout, record_prefetch, record_subtitle_signature,
  record_library_subtitles, Kind, ask, window, failure, record_embedded_ass, is_reencoded,
  record_hls_session, reset,
}

-- One call of the module.
pub data Event : Type 0 where
  stall : ℕ → Event
  timeout : Event
  prefetch : ℕ → Event
  signature : Event
  subtitles : Bool → ℕ → Event
  embedded : Kind → Event
  hls : List (Option Text) → Event
  cleared : Event

abbrev pub apply : Event → Counters → Counters
apply (stall ms) c = record_stall ms c
apply timeout c = record_timeout c
apply (prefetch n) c = record_prefetch n c
apply signature c = record_subtitle_signature c
apply (subtitles reported learned) c = record_library_subtitles reported learned c
apply (embedded k) c = record_embedded_ass k c
apply (hls decision) c = record_hls_session decision c
apply cleared c = reset c

unfoldable pub run : List Event → Counters → Counters
run [] c = c
run (e ∷ events) c = run events (apply e c)

-- The events since the last reset, the newest first.
unfoldable pub since_reset : List Event → List Event → List Event
since_reset log [] = log
since_reset log (cleared ∷ events) = since_reset [] events
since_reset log (e ∷ events) = since_reset (e ∷ log) events

-- how many events of a kind a log holds, each with its weight
unfoldable pub total : (Event → ℕ) → List Event → ℕ
total weight [] = 0
total weight (e ∷ log) = weight e + total weight log

abbrev pub is_stall : Event → ℕ
is_stall (stall ms) = 1
is_stall e = 0

abbrev pub stalled : Event → ℕ
stalled (stall ms) = ms
stalled e = 0

abbrev pub is_timeout : Event → ℕ
is_timeout timeout = 1
is_timeout e = 0

abbrev pub is_prefetch : Event → ℕ
is_prefetch (prefetch n) = 1
is_prefetch e = 0

abbrev pub planned : Event → ℕ
planned (prefetch n) = n
planned e = 0

abbrev pub is_signature : Event → ℕ
is_signature signature = 1
is_signature e = 0

abbrev pub is_hls : Event → ℕ
is_hls (hls decision) = 1
is_hls e = 0

abbrev pub is_encode : Event → ℕ
is_encode (hls decision) = if is_reencoded decision then 1 else 0
is_encode e = 0

abbrev pub is_subtitles : Event → ℕ
is_subtitles (subtitles reported learned) = 1
is_subtitles e = 0

abbrev pub is_report : Event → ℕ
is_report (subtitles reported learned) = if reported then 1 else 0
is_report e = 0

abbrev pub learned_of : Event → ℕ
learned_of (subtitles reported learned) = learned
learned_of e = 0

abbrev pub is_kind : Kind → Event → ℕ
is_kind ask (embedded ask) = 1
is_kind window (embedded window) = 1
is_kind failure (embedded failure) = 1
is_kind k e = 0

-- Every counter is the tally of its events.
pub record IsTally (log : List Event) (c : Counters) : Type 0 where
  pub stalls : c.stalls ≡ total is_stall log
  pub stall_ms : c.stall_ms ≡ total stalled log
  pub timeouts : c.timeouts ≡ total is_timeout log
  pub prefetches : c.prefetches ≡ total is_prefetch log
  pub prefetch_bytes : c.prefetch_bytes ≡ total planned log
  pub signatures : c.subtitle_signature_asks ≡ total is_signature log
  pub sessions : c.hls_sessions ≡ total is_hls log
  pub reencodes : c.hls_reencodes ≡ total is_encode log
  pub asks : c.library_subtitles_asks ≡ total is_subtitles log
  pub reports : c.library_subtitles_reports ≡ total is_report log
  pub learned : c.library_labels_learned ≡ total learned_of log
  pub ass_asks : c.embedded_ass_asks ≡ total (is_kind ask) log
  pub ass_windows : c.embedded_ass_windows ≡ total (is_kind window) log
  pub ass_failures : c.embedded_ass_failures ≡ total (is_kind failure) log
  pub encodes_within : c.hls_reencodes ≤ c.hls_sessions
  pub reports_within : c.library_subtitles_reports ≤ c.library_subtitles_asks

zeroed-IsTally : IsTally [] zeroed
unfolding total
zeroed-IsTally = ground arith

run_from-IsTally :
    (events log : List Event) (c : Counters)
    → IsTally log c
    → IsTally (since_reset log events) (run events c)
unfolding run since_reset total record_stall record_timeout record_prefetch
    record_subtitle_signature record_library_subtitles record_embedded_ass record_hls_session reset
run_from-IsTally [] log c h = h
run_from-IsTally (stall ms ∷ events) log c h =
    run_from-IsTally events (stall ms ∷ log) _ (ground arith)
run_from-IsTally (timeout ∷ events) log c h =
    run_from-IsTally events (timeout ∷ log) _ (ground arith)
run_from-IsTally (prefetch n ∷ events) log c h =
    run_from-IsTally events (prefetch n ∷ log) _ (ground arith)
run_from-IsTally (signature ∷ events) log c h =
    run_from-IsTally events (signature ∷ log) _ (ground arith)
run_from-IsTally (subtitles true n ∷ events) log c h =
    run_from-IsTally events (subtitles true n ∷ log) _ (ground arith)
run_from-IsTally (subtitles false n ∷ events) log c h =
    run_from-IsTally events (subtitles false n ∷ log) _ (ground arith)
run_from-IsTally (embedded ask ∷ events) log c h =
    run_from-IsTally events (embedded ask ∷ log) _ (ground arith)
run_from-IsTally (embedded window ∷ events) log c h =
    run_from-IsTally events (embedded window ∷ log) _ (ground arith)
run_from-IsTally (embedded failure ∷ events) log c h =
    run_from-IsTally events (embedded failure ∷ log) _ (ground arith)
run_from-IsTally (hls decision ∷ events) log c h =
    run_from-IsTally events (hls decision ∷ log) _ (ground arith)
run_from-IsTally (cleared ∷ events) log c h = run_from-IsTally events [] _ zeroed-IsTally

-- After any sequence of recordings and resets every counter is what was recorded of its kind since the
-- last reset; no more HLS jobs re-encode than there are, and no more subtitle requests report a file
-- than there are.
pub run-IsTally : (events : List Event) → IsTally (since_reset [] events) (run events zeroed)
run-IsTally events = run_from-IsTally events [] zeroed zeroed-IsTally

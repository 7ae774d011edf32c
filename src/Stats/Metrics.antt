-- ===== src/Stats/Metrics.antt =====
-- metrics.py: the process's playback counters. Seconds are whole milliseconds. Of an HLS decision a
-- job records the `action` of each stream, none where a value of it is no dict or names none.
pub mod Tally
use stremio_libtorrent_serve.Prelude.{
  ℕ, ◌+◌, Bool, true, false, ◌||◌, Option, none, some, List, [], ◌∷◌, if◌then◌else◌, ◌==◌,
}
use stremio_libtorrent_serve.Prelude.Text.{Text, Text_eq, codes}

pub record Counters : Type 0 where
  pub stalls : ℕ
  pub stall_ms : ℕ
  pub timeouts : ℕ
  pub prefetches : ℕ
  pub prefetch_bytes : ℕ
  pub subtitle_signature_asks : ℕ
  pub hls_sessions : ℕ
  pub hls_reencodes : ℕ
  pub library_subtitles_asks : ℕ
  pub library_subtitles_reports : ℕ
  pub library_labels_learned : ℕ
  pub embedded_ass_asks : ℕ
  pub embedded_ass_windows : ℕ
  pub embedded_ass_failures : ℕ

-- the counters when the process starts
abbrev pub zeroed : Counters
zeroed = record {
  stalls = 0;
  stall_ms = 0;
  timeouts = 0;
  prefetches = 0;
  prefetch_bytes = 0;
  subtitle_signature_asks = 0;
  hls_sessions = 0;
  hls_reencodes = 0;
  library_subtitles_asks = 0;
  library_subtitles_reports = 0;
  library_labels_learned = 0;
  embedded_ass_asks = 0;
  embedded_ass_windows = 0;
  embedded_ass_failures = 0;
}

unfoldable pub record_stall : ℕ → Counters → Counters
record_stall ms c = record c { stalls = c.stalls + 1; stall_ms = c.stall_ms + ms }

unfoldable pub record_timeout : Counters → Counters
record_timeout c = record c { timeouts = c.timeouts + 1 }

unfoldable pub record_prefetch : ℕ → Counters → Counters
record_prefetch planned_bytes c = record c {
  prefetches = c.prefetches + 1;
  prefetch_bytes = c.prefetch_bytes + planned_bytes;
}

unfoldable pub record_subtitle_signature : Counters → Counters
record_subtitle_signature c = record c { subtitle_signature_asks = c.subtitle_signature_asks + 1 }

unfoldable pub record_library_subtitles : Bool → ℕ → Counters → Counters
record_library_subtitles reported learned c = record c {
  library_subtitles_asks = c.library_subtitles_asks + 1;
  library_subtitles_reports =
      if reported then c.library_subtitles_reports + 1 else c.library_subtitles_reports;
  library_labels_learned = c.library_labels_learned + learned;
}

-- the keys of `_embedded_ass`
pub data Kind : Type 0 where
  ask window failure : Kind

unfoldable pub record_embedded_ass : Kind → Counters → Counters
record_embedded_ass ask c = record c { embedded_ass_asks = c.embedded_ass_asks + 1 }
record_embedded_ass window c = record c { embedded_ass_windows = c.embedded_ass_windows + 1 }
record_embedded_ass failure c = record c { embedded_ass_failures = c.embedded_ass_failures + 1 }

abbrev pub is_transcode : Option Text → Bool
is_transcode none = false
is_transcode (some action) = action == codes "transcode"

unfoldable pub is_reencoded : List (Option Text) → Bool
is_reencoded [] = false
is_reencoded (s ∷ streams) = is_transcode s || is_reencoded streams

unfoldable pub record_hls_session : List (Option Text) → Counters → Counters
record_hls_session decision c = record c {
  hls_sessions = c.hls_sessions + 1;
  hls_reencodes = if is_reencoded decision then c.hls_reencodes + 1 else c.hls_reencodes;
}

unfoldable pub reset : Counters → Counters
reset c = zeroed

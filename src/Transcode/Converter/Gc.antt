-- ===== src/Transcode/Converter/Gc.antt =====
-- transcode/converter.py: the ways in which encodes are reclaimed (`reap_idle`, `sweep`, `stop_all`), and
-- all operations as one step.
use stremio_libtorrent_serve.Prelude.{
  ℕ, ◌-◌, Bool, true, false, not, ◌&&◌, ◌||◌, Option, none, some, List, [], ◌∷◌, ◌++◌, ltb, leb,
  map, keep, contains, length,
}
use stremio_libtorrent_serve.Prelude.Text.{Text, Text_eq}
use stremio_libtorrent_serve.Prelude.Dict.{Dict, get}
use stremio_libtorrent_serve.Transcode.Converter.{
  Converter, Decision, Setup, Moment, Effect, Done, readers_of, is_running, ensure_job,
  retry_in_software, touch, job_dir,
}
use stremio_libtorrent_serve.Transcode.Converter.Leave.{
  forget, end_process, end_encode, stop, remove_job_dir,
}

-- `all(...)` and `any(...)`
unfoldable pub every : (Text → Bool) → List Text → Bool
every p [] = true
every p (x ∷ xs) = p x && every p xs

unfoldable pub some_of : (Text → Bool) → List Text → Bool
some_of p [] = false
some_of p (x ∷ xs) = p x || some_of p xs

abbrev pub last_seen : Converter → Text → ℕ
last_seen s r = elim (get r s.seen) [ none ↦ 0 | some t ↦ t ]

abbrev pub is_idle : ℕ → Moment → Converter → Text × ℕ → Bool
is_idle idle_after m s job =
    is_running m job.1 && every (λ r. leb idle_after (m.mono - last_seen s r)) (readers_of s job.0)

abbrev pub job_id_of : Text × ℕ → Text
job_id_of job = job.0

-- the jobs that are ended
unfoldable pub idle_jobs : ℕ → Moment → Converter → List Text
unfolding get every
idle_jobs idle_after m s = map job_id_of (keep (is_idle idle_after m s) s.jobs)

-- `_end_encode` of each, with what it does appended
unfoldable pub end_all : List Text → Moment → Converter → List Effect → Converter × List Effect
unfolding end_encode
end_all [] m s done = (s, done)
end_all (o ∷ os) m s done =
    let ended = end_encode o m s in end_all os m ended.books (done ++ ended.effects)

-- `reap_idle`
unfoldable pub reap_idle : ℕ → Moment → Converter → Done (List Text)
unfolding idle_jobs end_all
reap_idle idle_after m s =
    let idle = idle_jobs idle_after m s in
    let ended = end_all idle m s [] in record { result = idle; books = ended.0; effects = ended.1 }

-- `active_count`
unfoldable pub active_count : Moment → Converter → ℕ
active_count m s = length (keep (λ (job : Text × ℕ). is_running m job.1) s.jobs)

-- A name in the base directory: whether it is a directory that can be measured, its age, 0 where it is
-- stamped later, and whether removing it works.
pub record Listed : Type 0 where
  pub name : Text
  pub is_dir : Bool
  pub age : ℕ
  pub goes : Bool

abbrev pub read_within : ℕ → Moment → Converter → Text → Bool
read_within max_age m s r = elim (get r s.seen) [ none ↦ false | some t ↦ ltb (m.mono - t) max_age ]

abbrev pub is_live_job : ℕ → Moment → Converter → Text × ℕ → Bool
is_live_job max_age m s job =
    is_running m job.1 || some_of (read_within max_age m s) (readers_of s job.0)

unfoldable pub live_jobs : ℕ → Moment → Converter → List Text
unfolding get some_of
live_jobs max_age m s = map job_id_of (keep (is_live_job max_age m s) s.jobs)

abbrev pub is_swept : ℕ → List Text → Listed → Bool
is_swept max_age live d = not (contains live d.name) && (d.is_dir && not (ltb d.age max_age))

abbrev pub listed_name : Listed → Text
listed_name d = d.name

abbrev pub swept : ℕ → Moment → Converter → List Listed → List Listed
swept max_age m s names = keep (is_swept max_age (live_jobs max_age m s)) names

unfoldable pub forget_all : List Text → Converter → Converter
unfolding forget
forget_all [] s = s
forget_all (o ∷ os) s = forget_all os (forget o s)

abbrev pub removal : Listed → Effect
removal d = Effect.remove_dir d.name

-- `sweep` of a base directory that can be listed
unfoldable pub sweep : ℕ → Moment → Converter → List Listed → Done ℕ
unfolding live_jobs forget_all contains
sweep max_age m s names =
    let removed = map listed_name (keep (λ d. d.goes) (swept max_age m s names)) in
    record {
      result = length removed;
      books = forget_all removed s;
      effects = map removal (swept max_age m s names);
    }

abbrev pub no_books : Converter
no_books = record { jobs = []; seen = []; owner = []; readers = []; by_key = []; spec = [] }

unfoldable pub ends_of : Dict Text ℕ → Moment → List Effect
unfolding job_dir
ends_of [] m = []
ends_of ((job_id, p) ∷ jobs) m =
    end_process m (some p) ++ (remove_job_dir (job_dir job_id) ++ ends_of jobs m)

-- `stop_all`
unfoldable pub stop_all : Moment → Converter → Done Unit
unfolding ends_of
stop_all m s = record { result = tt; books = no_books; effects = ends_of s.jobs m }

-- An operation, each at a moment of its own.
pub data ConverterCall : Type 0 where
  ensure : Text → Text → Decision → Option Text → ConverterCall
  retry : Text → ConverterCall
  touched : Text → ConverterCall
  reaped : ℕ → ConverterCall
  stopped : Text → ConverterCall
  swept_off : ℕ → List Listed → ConverterCall
  all_stopped : ConverterCall

abbrev pub perform : Setup → ConverterCall → Moment → Converter → Converter
perform setup (ensure job_id url decision key) m s =
    (ensure_job setup job_id url decision key m s).books
perform setup (retry job_id) m s = (retry_in_software setup job_id m s).books
perform setup (touched job_id) m s = touch job_id m s
perform setup (reaped idle_after) m s = (reap_idle idle_after m s).books
perform setup (stopped job_id) m s = (stop job_id m s).books
perform setup (swept_off max_age names) m s = (sweep max_age m s names).books
perform setup all_stopped m s = (stop_all m s).books

-- The books after some operations on a fresh converter.
pub data Reach (setup : Setup) : Converter → Type 0 where
  fresh : Reach setup no_books
  after :
      {s : Converter}
      → Reach setup s
      → (c : ConverterCall) (m : Moment) → Reach setup (perform setup c m s)

-- ===== src/Transcode/Converter.antt =====
-- transcode/converter.py, `Converter`: the books of the encodes and of who reads them. A process is a
-- number, a directory the id of its job; times are whole seconds that do not go back. Starting ffmpeg and
-- writing into a directory succeed, `_end` waits for the process that it terminates, and the base
-- directory holds no symbolic links. The count of sessions in the metrics is left out.
pub mod Leave
pub mod Gc
pub mod Joined
pub mod Shared
use stremio_libtorrent_serve.Prelude.{
  ℕ, zero, suc, ◌-◌, Bool, true, false, not, ◌&&◌, ◌||◌, Option, none, some, List, [], ◌∷◌, ◌++◌,
  ltb, leb, map, keep, if◌then◌else◌, ◌==◌, contains, add_to, is_some, ℕ_eq,
}
use stremio_libtorrent_serve.Prelude.Text.{Text, Text_eq, codes, is_empty, starts_with}
use stremio_libtorrent_serve.Prelude.Dict.{Dict, get, put, remove}

-- What the books look at in a decision.
pub record Decision : Type 0 where
  pub transcodes_video : Bool
  pub has_tonemap : Bool
  pub has_tracks : Bool

pub record Spec : Type 0 where
  pub media_url : Text
  pub decision : Decision
  pub on_gpu : Bool

pub record Setup : Type 0 where
  pub profile : Option Text
  pub gpu_tonemap : Bool
  pub cpu_tonemap : Bool

pub record Converter : Type 0 where
  pub jobs : Dict Text ℕ
  pub seen : Dict Text ℕ
  pub owner : Dict Text Text
  pub readers : Dict Text (List Text)
  pub by_key : Dict Text Text
  pub spec : Dict Text Spec

-- The time of an operation, the exit codes of the processes at that time, and the process that is
-- started next.
pub record Moment : Type 0 where
  pub mono : ℕ
  pub poll : ℕ → Option ℕ
  pub process : ℕ

-- What an operation does outside the books, in its order.
pub data Effect : Type 0 where
  spawn : Text → Text → Decision → Option Text → Option Text → Effect
  write_master : Text → Effect
  keep_log : Text → Effect
  terminate : ℕ → Effect
  remove_dir : Text → Effect

abbrev pub is_unsafe : Text → Bool
is_unsafe name =
    is_empty name
    || ((name == codes "." || name == codes "..") || (contains name b'/' || contains name b'\\'))

-- `job_dir`; `none` is its `ValueError`
unfoldable pub job_dir : Text → Option Text
unfolding contains is_empty
job_dir job_id = if is_unsafe job_id then none else some job_id

abbrev pub owner_or_self : Converter → Text → Text
owner_or_self s job_id = elim (get job_id s.owner) [ none ↦ job_id | some o ↦ o ]

abbrev pub in_dir : Text → Option Text → Option (Text × Text)
in_dir filename none = none
in_dir filename (some d) = some (d, filename)

abbrev pub joined_dir : Option Text → Option Text → Option Text
joined_dir none dir = none
joined_dir (some d) none = some d
joined_dir (some d) (some o) = job_dir o

-- `job_file`
unfoldable pub job_file : Text → Text → Converter → Option (Text × Text)
unfolding get job_dir
job_file job_id filename s =
    if is_unsafe filename
    then none
    else in_dir filename (joined_dir (job_dir job_id) (get job_id s.owner))

-- still running, or finished cleanly
abbrev pub is_usable : Moment → Option ℕ → Bool
is_usable m none = false
is_usable m (some p) = elim (m.poll p) [ none ↦ true | some zero ↦ true | some (suc code) ↦ false ]

abbrev pub is_running : Moment → ℕ → Bool
is_running m p = not (is_some (m.poll p))

abbrev pub is_vaapi : Option Text → Bool
is_vaapi none = false
is_vaapi (some profile) = starts_with profile (codes "vaapi")

-- `tonemap_mode`
unfoldable pub tonemap_mode : Setup → Decision → Option Text → Option Text
unfolding starts_with
tonemap_mode setup decision profile =
    if decision.has_tonemap
    then if setup.gpu_tonemap && is_vaapi profile
      then some (codes "vaapi")
      else if setup.cpu_tonemap
      then some (codes "cpu")
      else none
    else none

-- What an operation leaves: the books, and what it has done.
pub record Done (A : Type 0) : Type 0 where
  pub result : A
  pub books : Converter
  pub effects : List Effect

abbrev pub see : Text → Moment → Converter → Converter
see job_id m s = record s { seen = put job_id m.mono s.seen }

abbrev pub readers_of : Converter → Text → List Text
readers_of s o = elim (get o s.readers) [ none ↦ o ∷ [] | some rs ↦ rs ]

abbrev pub join_encode : Text → Text → Moment → Converter → Converter
join_encode job_id o m s = record s {
  owner = put job_id o s.owner;
  readers = put o (add_to (readers_of s o) job_id) s.readers;
  seen = put job_id m.mono s.seen;
}

abbrev pub put_key : Option Text → Text → Dict Text Text → Dict Text Text
put_key none job_id by_key = by_key
put_key (some k) job_id by_key = put k job_id by_key

abbrev pub master_of : Text → Decision → List Effect
master_of d decision = if decision.has_tracks then write_master d ∷ [] else []

abbrev pub start_in :
    Setup
    → Text
    → Text
    → Decision
    → Option Text
    → Moment
    → Converter
    → Option Text
    → Done (Option Text)
start_in setup job_id url decision key m s none = record { result = none; books = s; effects = [] }
start_in setup job_id url decision key m s (some d) = record {
  result = some d;
  books = record s {
    jobs = put job_id m.process s.jobs;
    spec =
        put job_id
          (record {
            media_url = url;
            decision = decision;
            on_gpu = is_some setup.profile && decision.transcodes_video;
          })
          s.spec;
    by_key = put_key key job_id s.by_key;
    seen = put job_id m.mono s.seen;
  };
  effects =
      master_of d decision
      ++ spawn d url decision setup.profile (tonemap_mode setup decision setup.profile) ∷ [];
}

abbrev pub key_owner : Converter → Option Text → Option Text
key_owner s none = none
key_owner s (some k) = get k s.by_key

-- the running encode of the workload, where another job started it
abbrev pub shared_owner : Text → Moment → Converter → Option Text → Option Text
shared_owner job_id m s none = none
shared_owner job_id m s (some o) =
    if not (o == job_id) && is_usable m (get o s.jobs) then some o else none

abbrev pub start_or_join :
    Setup
    → Text
    → Text
    → Decision
    → Option Text
    → Moment
    → Converter
    → Option Text
    → Done (Option Text)
start_or_join setup job_id url decision key m s (some o) = record {
  result = job_dir o;
  books = join_encode job_id o m s;
  effects = [];
}
start_or_join setup job_id url decision key m s none =
    start_in setup job_id url decision key m s (job_dir job_id)

abbrev pub unless_joined :
    Setup
    → Text
    → Text
    → Decision
    → Option Text
    → Moment
    → Converter
    → Option Text
    → Done (Option Text)
unless_joined setup job_id url decision key m s (some o) = record {
  result = job_dir o;
  books = see job_id m s;
  effects = [];
}
unless_joined setup job_id url decision key m s none =
    start_or_join setup job_id url decision key m s (shared_owner job_id m s (key_owner s key))

-- `ensure_job`
unfoldable pub ensure_job :
    Setup → Text → Text → Decision → Option Text → Moment → Converter → Done (Option Text)
unfolding get put job_dir tonemap_mode add_to
ensure_job setup job_id url decision key m s =
    if is_usable m (get job_id s.jobs)
    then record { result = job_dir job_id; books = see job_id m s; effects = [] }
    else unless_joined setup job_id url decision key m s (get job_id s.owner)

abbrev pub restart_in : Setup → Text → Spec → Moment → Converter → Option Text → Done Bool
restart_in setup o sp m s none = record { result = false; books = s; effects = [] }
restart_in setup o sp m s (some d) = record {
  result = true;
  books = record s {
    jobs = put o m.process s.jobs;
    spec = put o (record sp { on_gpu = false }) s.spec;
  };
  effects =
      keep_log d ∷ spawn d sp.media_url sp.decision none (tonemap_mode setup sp.decision none) ∷ [];
}

abbrev pub retry_of : Setup → Text → Option ℕ → Option Spec → Moment → Converter → Done Bool
retry_of setup o (some p) (some sp) m s =
    if not sp.on_gpu || is_usable m (some p)
    then record { result = false; books = s; effects = [] }
    else restart_in setup o sp m s (job_dir o)
retry_of setup o job sp m s = record { result = false; books = s; effects = [] }

-- `retry_in_software`
unfoldable pub retry_in_software : Setup → Text → Moment → Converter → Done Bool
unfolding get put job_dir tonemap_mode
retry_in_software setup job_id m s =
    let o = owner_or_self s job_id in retry_of setup o (get o s.jobs) (get o s.spec) m s

-- `touch`
unfoldable pub touch : Text → Moment → Converter → Converter
unfolding get put
touch job_id m s =
    if is_some (get job_id s.jobs) || is_some (get job_id s.owner) then see job_id m s else s

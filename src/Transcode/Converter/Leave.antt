-- ===== src/Transcode/Converter/Leave.antt =====
-- transcode/converter.py: the end of an encode, and a viewer who stops (`_forget`, `_end_encode`, `stop`).
use stremio_libtorrent_serve.Prelude.{
  ℕ, not, Option, none, some, List, [], ◌∷◌, ◌++◌, keep, if◌then◌else◌, ◌==◌, ℕ_eq,
}
use stremio_libtorrent_serve.Prelude.Text.{Text, Text_eq, is_empty}
use stremio_libtorrent_serve.Prelude.Dict.{Dict, get, put, remove}
use stremio_libtorrent_serve.Transcode.Converter.{
  Converter, Moment, Effect, terminate, remove_dir, Done, owner_or_self, readers_of, job_dir,
  is_running,
}

-- `for k in ks: d.pop(k, None)`
unfoldable pub remove_all : {V : Type 0} → List Text → Dict Text V → Dict Text V
remove_all [] d = d
remove_all (k ∷ ks) d = remove_all ks (remove k d)

-- the loop that drops an owner's keys
unfoldable pub drop_value : Text → Dict Text Text → Dict Text Text
drop_value o [] = []
drop_value o ((k, v) ∷ d) = let rest = drop_value o d in if v == o then rest else (k, v) ∷ rest

-- `_forget`, without the process that it returns
unfoldable pub forget : Text → Converter → Converter
unfolding get remove remove_all drop_value
forget o s = record {
  jobs = remove o s.jobs;
  spec = remove o s.spec;
  readers = remove o s.readers;
  seen = remove o (remove_all (readers_of s o) s.seen);
  owner = remove_all (readers_of s o) s.owner;
  by_key = drop_value o s.by_key;
}

-- `_end`
abbrev pub end_process : Moment → Option ℕ → List Effect
end_process m none = []
end_process m (some p) = if is_running m p then terminate p ∷ [] else []

-- `_remove_job_dir`
abbrev pub remove_job_dir : Option Text → List Effect
remove_job_dir none = []
remove_job_dir (some d) = remove_dir d ∷ []

-- `_end_encode`
unfoldable pub end_encode : Text → Moment → Converter → Done Unit
unfolding forget job_dir
end_encode o m s = record {
  result = tt;
  books = forget o s;
  effects = end_process m (get o s.jobs) ++ remove_job_dir (job_dir o);
}

unfoldable pub without : Text → List Text → List Text
without a xs = keep (λ x. not (x == a)) xs

abbrev pub stop_reader : Text → Text → Moment → Converter → Option (List Text) → Done Unit
stop_reader job_id o m s none = end_encode o m s
stop_reader job_id o m s (some rs) =
    let left = record s { readers = put o (without job_id rs) s.readers } in
    if is_empty (without job_id rs)
    then end_encode o m left
    else record { result = tt; books = left; effects = [] }

-- `stop`
unfoldable pub stop : Text → Moment → Converter → Done Unit
unfolding get put remove end_encode without is_empty
stop job_id m s =
    let o = owner_or_self s job_id in
    let left = record s { owner = remove job_id s.owner; seen = remove job_id s.seen } in
    stop_reader job_id o m left (get o s.readers)

-- ===== src/Transcode/Converter/Joined.antt =====
-- transcode/converter.py: a job that has joined an encode is counted among its readers, after any
-- operations.
pub mod Steps
use stremio_libtorrent_serve.Prelude.{
  ℕ, ◌≡◌, refl, sym, subst, ap, inl, inr, Bool, true, false, not, ◌&&◌, ◌||◌, ◌∙◌, Option, none,
  some, List, [], ◌∷◌, ◌++◌, arith, Bool-cases, Option-cases, if◌then◌else◌, is_some, ◌==◌,
  contains, add_to, contains-add_to, beq_refl, keep, length, map,
}
use stremio_libtorrent_serve.Prelude.Text.{Text, Text_eq, is_empty}
use stremio_libtorrent_serve.Prelude.Dict.{Dict, get, put, remove, get-put, get-remove}
use stremio_libtorrent_serve.Transcode.Converter.{
  Converter, Setup, Moment, Effect, Done, Decision, Spec, readers_of, see, join_encode,
  owner_or_self, job_dir, is_usable, key_owner, shared_owner, start_in, start_or_join,
  unless_joined, ensure_job, retry_of, restart_in, retry_in_software, touch,
}
use stremio_libtorrent_serve.Transcode.Converter.Leave.{
  remove_all, forget, without, stop_reader, stop, end_encode,
}
use stremio_libtorrent_serve.Transcode.Converter.Gc.{
  idle_jobs, end_all, reap_idle, forget_all, sweep, stop_all, ConverterCall, ensure, retry, touched,
  reaped, stopped, swept_off, all_stopped, perform, Reach, fresh, after,
}

-- The encode that a job has joined is in the books, with the job among its readers.
abbrev pub IsReading : Converter → Text → Text → Type 0
IsReading s job_id o =
    (is_some (get o s.jobs) ≡ true)
    × ((rs : List Text) × (get o s.readers ≡ some rs) × (contains rs job_id ≡ true))

abbrev pub AreJoined : Converter → Type 0
AreJoined s = (job_id o : Text) → get job_id s.owner ≡ some o → IsReading s job_id o

remove_all-get :
    {V : Type 0} (ks : List Text) (d : Dict Text V) (k : Text)
    → get k (remove_all ks d) ≡ (if contains ks k then none else get k d)
unfolding remove_all contains
remove_all-get [] d k = refl
remove_all-get (j ∷ ks) d k =
    rw (remove_all-get ks (remove j d) k, get-remove j k d) (ground (arith))

-- what is in the dictionary after a removal was there before
pub kept_some :
    {V : Type 0} (b : Bool) (o : Option V) (v : V)
    → (if b then none else o) ≡ some v
    → (b ≡ false) × (o ≡ some v)
kept_some true o v h = absurd (cc h)
kept_some false o v h = (refl, h)

pub some_readers :
    (s : Converter) (o : Text) (rs : List Text) → get o s.readers ≡ some rs → readers_of s o ≡ rs
some_readers s o rs h = rw (h, readers_of) refl

pub forget-AreJoined : (o : Text) (s : Converter) → AreJoined s → AreJoined (forget o s)
unfolding forget
forget-AreJoined o s h job_id p q =
    let (kept, q') =
      kept_some (contains (readers_of s o) job_id) (get job_id s.owner) p
        (sym (remove_all-get (readers_of s o) s.owner job_id) ∙ q) in
    let (job, (rs, r, c)) = h job_id p q' in
    elim (Bool-cases (o == p)) [
      | inl e ↦
          let same : o ≡ p = (Text_eq.decides o p).0 e in
          let r' : readers_of s o ≡ rs =
            some_readers s o rs (subst (λ t. get t s.readers ≡ some rs) (sym same) r) in
          absurd (cc (kept, c, r'))
      | inr e ↦ (rw (get-remove o p s.jobs, e) job, (rs, rw (get-remove o p s.readers, e) r, c))
    ]

-- A job that is put into the books takes no other out of them.
pub put-job :
    (j o : Text) (p : ℕ) (jobs : Dict Text ℕ)
    → is_some (get o jobs) ≡ true
    → is_some (get o (put j p jobs)) ≡ true
put-job j o p jobs h = rw (get-put j o p jobs) (ground (arith, h))

pub more_jobs-AreJoined :
    (s t : Converter)
    → t.owner ≡ s.owner
    → t.readers ≡ s.readers
    → ((o : Text) → is_some (get o s.jobs) ≡ true → is_some (get o t.jobs) ≡ true)
    → AreJoined s
    → AreJoined t
more_jobs-AreJoined s t e f g h job_id o q =
    let (job, (rs, r, c)) = h job_id o (subst (λ d. get job_id d ≡ some o) e q) in
    (g o job, (rs, subst (λ d. get o d ≡ some rs) (sym f) r, c))

usable-some : (m : Moment) (o : Option ℕ) → is_usable m o ≡ true → is_some o ≡ true
usable-some m none h = h
usable-some m (some p) h = refl

contains-readers :
    (s : Converter) (o job_id : Text) (rs : List Text)
    → get o s.readers ≡ some rs
    → contains rs job_id ≡ true
    → contains (readers_of s o) job_id ≡ true
contains-readers s o job_id rs r c = rw (some_readers s o rs r) c

join-AreJoined :
    (job_id o : Text) (m : Moment) (s : Converter)
    → is_some (get o s.jobs) ≡ true
    → AreJoined s
    → AreJoined (join_encode job_id o m s)
join-AreJoined job_id o m s job h i p q = elim (Bool-cases (job_id == i)) [
  | inl e ↦
      let same : job_id ≡ i = (Text_eq.decides job_id i).0 e in
      let q' : some o ≡ some p = rw e at (sym (get-put job_id i o s.owner) ∙ q) in
      let to : o ≡ p = cc q' in
      let member : contains (add_to (readers_of s o) job_id) i ≡ true =
        contains-add_to (readers_of s o) job_id i ∙ rw e refl in
      (
        subst (λ t. is_some (get t s.jobs) ≡ true) to job,
        (
          add_to (readers_of s o) job_id,
          subst
              (λ t.
                get t (put o (add_to (readers_of s o) job_id) s.readers)
                ≡ some (add_to (readers_of s o) job_id))
              to (rw (get-put o o (add_to (readers_of s o) job_id) s.readers, beq_refl o) refl),
          member,
        ),
      )
  | inr e ↦
      let q' : get i s.owner ≡ some p = rw e at (sym (get-put job_id i o s.owner) ∙ q) in
      let (job', (rs, r, c)) = h i p q' in (job', others p rs r c)
]
  where
    others :
        (p : Text) (rs : List Text)
        → get p s.readers ≡ some rs
        → contains rs i ≡ true
        → (rs' : List Text) × (get p (put o (add_to (readers_of s o) job_id) s.readers) ≡ some rs')
          × (contains rs' i ≡ true)
    others p rs r c = elim (Bool-cases (o == p)) [
      | inl e ↦
          let same : o ≡ p = (Text_eq.decides o p).0 e in
          let c' =
            contains-readers s o i rs (subst (λ t. get t s.readers ≡ some rs) (sym same) r) c in
          (
            add_to (readers_of s o) job_id,
            rw (get-put o p (add_to (readers_of s o) job_id) s.readers, e) refl,
            rw (contains-add_to (readers_of s o) job_id i) (ground (arith, c')),
          )
      | inr e ↦ (rs, rw (get-put o p (add_to (readers_of s o) job_id) s.readers, e) r, c)
    ]

shared_owner-some :
    (job_id o : Text) (m : Moment) (s : Converter) (k : Option Text)
    → shared_owner job_id m s k ≡ some o
    → is_some (get o s.jobs) ≡ true
shared_owner-some job_id o m s none h = absurd (cc h)
shared_owner-some job_id o m s (some p) h =
    elim (Bool-cases (not (p == job_id) && is_usable m (get p s.jobs))) [
      | inl e ↦
          let h' : some p ≡ some o = rw e at h in
          let same : p ≡ o = cc h' in
          let u : is_usable m (get p s.jobs) ≡ true = ground (arith, e) in
          subst (λ t. is_some (get t s.jobs) ≡ true) same (usable-some m (get p s.jobs) u)
      | inr e ↦ absurd (cc (rw e at h))
    ]

module _ (setup : Setup) (job_id url : Text) (decision : Decision) (key : Option Text)
    (m : Moment) where
  start_in-AreJoined :
      (s : Converter) (d : Option Text)
      → AreJoined s
      → AreJoined (start_in setup job_id url decision key m s d).books
  start_in-AreJoined s none h = h
  start_in-AreJoined s (some d) h =
      more_jobs-AreJoined s (start_in setup job_id url decision key m s (some d)).books refl refl
        (λ o k. put-job job_id o m.process s.jobs k) h

  start_or_join-AreJoined :
      (s : Converter) (o : Option Text)
      → shared_owner job_id m s (key_owner s key) ≡ o
      → AreJoined s
      → AreJoined (start_or_join setup job_id url decision key m s o).books
  start_or_join-AreJoined s none e h = start_in-AreJoined s (job_dir job_id) h
  start_or_join-AreJoined s (some o) e h =
      join-AreJoined job_id o m s (shared_owner-some job_id o m s (key_owner s key) e) h

  unless_joined-AreJoined :
      (s : Converter) (o : Option Text)
      → AreJoined s
      → AreJoined (unless_joined setup job_id url decision key m s o).books
  unless_joined-AreJoined s none h =
      start_or_join-AreJoined s (shared_owner job_id m s (key_owner s key)) refl h
  unless_joined-AreJoined s (some o) h =
      more_jobs-AreJoined s (see job_id m s) refl refl (λ o' k. k) h

  pub ensure_job-AreJoined :
      (s : Converter) → AreJoined s → AreJoined (ensure_job setup job_id url decision key m s).books
  unfolding ensure_job
  ensure_job-AreJoined s h = elim (Bool-cases (is_usable m (get job_id s.jobs))) [
    | inl e ↦
        let same : ensure_job setup job_id url decision key m s
            ≡ record { result = job_dir job_id; books = see job_id m s; effects = [] } =
          rw e refl in
        subst (λ (d : Done (Option Text)). AreJoined d.books) (sym same)
          (more_jobs-AreJoined s (see job_id m s) refl refl (λ o k. k) h)
    | inr e ↦
        let same : ensure_job setup job_id url decision key m s
            ≡ unless_joined setup job_id url decision key m s (get job_id s.owner) =
          rw e refl in
        subst (λ (d : Done (Option Text)). AreJoined d.books) (sym same)
          (unless_joined-AreJoined s (get job_id s.owner) h)
  ]

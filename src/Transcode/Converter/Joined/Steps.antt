-- ===== src/Transcode/Converter/Joined/Steps.antt =====
-- transcode/converter.py: the books of who reads what, kept by each operation.
use stremio_libtorrent_serve.Prelude.{
  ℕ, ◌≡◌, refl, sym, subst, inl, inr, Bool, true, false, not, ◌||◌, ◌∙◌, Option, none, some, List,
  [], ◌∷◌, ◌++◌, arith, Bool-cases, is_some, ◌==◌, contains, keep, map,
}
use stremio_libtorrent_serve.Prelude.Text.{Text, Text_eq, is_empty}
use stremio_libtorrent_serve.Prelude.Dict.{get, put, remove, get-put, get-remove}
use stremio_libtorrent_serve.Transcode.Converter.{
  Converter, Setup, Moment, Effect, Done, Spec, see, owner_or_self, job_dir, is_usable, retry_of,
  restart_in, retry_in_software, touch,
}
use stremio_libtorrent_serve.Transcode.Converter.Leave.{
  forget, without, stop_reader, stop, end_encode,
}
use stremio_libtorrent_serve.Transcode.Converter.Gc.{
  idle_jobs, end_all, reap_idle, forget_all, sweep, stop_all, ConverterCall, ensure, retry, touched,
  reaped, stopped, swept_off, all_stopped, perform, Reach, fresh, after, no_books, listed_name,
  swept,
}
use stremio_libtorrent_serve.Transcode.Converter.Joined.{
  AreJoined, forget-AreJoined, more_jobs-AreJoined, put-job, ensure_job-AreJoined, kept_some,
}

pub contains-without :
    (job_id i : Text) (rs : List Text)
    → (job_id == i) ≡ false
    → contains rs i ≡ true
    → contains (without job_id rs) i ≡ true
unfolding without contains keep
contains-without job_id i [] e c = c
contains-without job_id i (r ∷ rs) e c = ground (
  arith,
  contains-without job_id i rs e,
  Text_eq.decides r i,
  Text_eq.decides r job_id,
  Text_eq.decides job_id i,
)

pub contains-nonempty : (rs : List Text) (i : Text) → contains rs i ≡ true → is_empty rs ≡ false
unfolding contains is_empty
contains-nonempty [] i c = absurd (cc c)
contains-nonempty (r ∷ rs) i c = refl

-- The books once a job has left those of its own: what `stop` goes on with.
abbrev pub left_books : Text → Converter → Converter
left_books job_id s = record s { owner = remove job_id s.owner; seen = remove job_id s.seen }

left_books-owner :
    (job_id i o : Text) (s : Converter)
    → get i (left_books job_id s).owner ≡ some o
    → ((job_id == i) ≡ false) × (get i s.owner ≡ some o)
left_books-owner job_id i o s h =
    kept_some (job_id == i) (get i s.owner) o (sym (get-remove job_id i s.owner) ∙ h)

leave-AreJoined :
    (job_id o : Text) (rs : List Text) (s : Converter)
    → get o s.readers ≡ some rs
    → AreJoined s
    → AreJoined (record (left_books job_id s) { readers = put o (without job_id rs) s.readers })
leave-AreJoined job_id o rs s r h i p q =
    let (e, q') = left_books-owner job_id i p s q in
    let (job, (rs', r', c)) = h i p q' in (job, still p rs' r' c e)
  where
    still :
        (p : Text) (rs' : List Text)
        → get p s.readers ≡ some rs'
        → contains rs' i ≡ true
        → (job_id == i) ≡ false
        → (left : List Text) × (get p (put o (without job_id rs) s.readers) ≡ some left)
          × (contains left i ≡ true)
    still p rs' r' c e = elim (Bool-cases (o == p)) [
      | inl k ↦
          let same : o ≡ p = (Text_eq.decides o p).0 k in
          let one : some rs ≡ some rs' =
            sym r ∙ (subst (λ t. get t s.readers ≡ some rs') (sym same) r') in
          let both : rs' ≡ rs = sym (cc one) in
          (
            without job_id rs,
            rw (get-put o p (without job_id rs) s.readers, k) refl,
            contains-without job_id i rs e (subst (λ t. contains t i ≡ true) both c),
          )
      | inr k ↦ (rs', rw (get-put o p (without job_id rs) s.readers, k) r', c)
    ]

left_books-AreJoined :
    (job_id : Text) (s : Converter) → AreJoined s → AreJoined (left_books job_id s)
left_books-AreJoined job_id s h i p q = h i p (left_books-owner job_id i p s q).1

end_encode-AreJoined :
    (o : Text) (m : Moment) (s : Converter) → AreJoined s → AreJoined (end_encode o m s).books
unfolding end_encode
end_encode-AreJoined o m s h = forget-AreJoined o s h

stop_reader-AreJoined :
    (job_id o : Text) (m : Moment) (s : Converter) (rs : Option (List Text))
    → get o s.readers ≡ rs
    → AreJoined s
    → AreJoined (stop_reader job_id o m (left_books job_id s) rs).books
stop_reader-AreJoined job_id o m s none r h =
    end_encode-AreJoined o m (left_books job_id s) (left_books-AreJoined job_id s h)
stop_reader-AreJoined job_id o m s (some rs) r h =
    let left = record (left_books job_id s) { readers = put o (without job_id rs) s.readers } in
    let j : AreJoined left = leave-AreJoined job_id o rs s r h in
    elim (Bool-cases (is_empty (without job_id rs))) [
      | inl e ↦
          let same : stop_reader job_id o m (left_books job_id s) (some rs) ≡ end_encode o m left =
            rw e refl in
          subst (λ (d : Done Unit). AreJoined d.books) (sym same) (end_encode-AreJoined o m left j)
      | inr e ↦
          let same : stop_reader job_id o m (left_books job_id s) (some rs)
              ≡ record { result = tt; books = left; effects = [] } =
            rw e refl in
          subst (λ (d : Done Unit). AreJoined d.books) (sym same) j
    ]

stop-AreJoined :
    (job_id : Text) (m : Moment) (s : Converter) → AreJoined s → AreJoined (stop job_id m s).books
unfolding stop
stop-AreJoined job_id m s h =
    stop_reader-AreJoined job_id (owner_or_self s job_id) m s
      (get (owner_or_self s job_id) s.readers) refl h

retry_of-AreJoined :
    (setup : Setup) (o : Text) (job : Option ℕ) (sp : Option Spec) (m : Moment) (s : Converter)
    → AreJoined s
    → AreJoined (retry_of setup o job sp m s).books
retry_of-AreJoined setup o none sp m s h = h
retry_of-AreJoined setup o (some p) none m s h = h
retry_of-AreJoined setup o (some p) (some sp) m s h =
    elim (Bool-cases (not sp.on_gpu || is_usable m (some p))) [
      | inl e ↦
          let same : retry_of setup o (some p) (some sp) m s
              ≡ record { result = false; books = s; effects = [] } =
            rw e refl in
          subst (λ (d : Done Bool). AreJoined d.books) (sym same) h
      | inr e ↦
          let same : retry_of setup o (some p) (some sp) m s
              ≡ restart_in setup o sp m s (job_dir o) =
            rw e refl in
          subst (λ (d : Done Bool). AreJoined d.books) (sym same) (restarted (job_dir o))
    ]
  where
    restarted : (d : Option Text) → AreJoined (restart_in setup o sp m s d).books
    restarted none = h
    restarted (some d) =
        more_jobs-AreJoined s (restart_in setup o sp m s (some d)).books refl refl
          (λ p' k. put-job o p' m.process s.jobs k) h

touch-AreJoined :
    (job_id : Text) (m : Moment) (s : Converter) → AreJoined s → AreJoined (touch job_id m s)
unfolding touch
touch-AreJoined job_id m s h =
    elim (Bool-cases (is_some (get job_id s.jobs) || is_some (get job_id s.owner))) [
      | inl e ↦
          let same : touch job_id m s ≡ see job_id m s = rw e refl in
          subst AreJoined (sym same) (more_jobs-AreJoined s (see job_id m s) refl refl (λ o k. k) h)
      | inr e ↦ let same : touch job_id m s ≡ s = rw e refl in subst AreJoined (sym same) h
    ]

end_all-AreJoined :
    (os : List Text) (m : Moment) (s : Converter) (done : List Effect)
    → AreJoined s
    → AreJoined (end_all os m s done).0
unfolding end_all
end_all-AreJoined [] m s done h = h
end_all-AreJoined (o ∷ os) m s done h =
    end_all-AreJoined os m (end_encode o m s).books (done ++ (end_encode o m s).effects)
      (end_encode-AreJoined o m s h)

forget_all-AreJoined : (os : List Text) (s : Converter) → AreJoined s → AreJoined (forget_all os s)
unfolding forget_all
forget_all-AreJoined [] s h = h
forget_all-AreJoined (o ∷ os) s h = forget_all-AreJoined os (forget o s) (forget-AreJoined o s h)

no_books-AreJoined : AreJoined no_books
unfolding get
no_books-AreJoined i p q = absurd (cc q)

perform-AreJoined :
    (setup : Setup) (c : ConverterCall) (m : Moment) (s : Converter)
    → AreJoined s
    → AreJoined (perform setup c m s)
unfolding retry_in_software reap_idle sweep stop_all get
perform-AreJoined setup (ensure job_id url decision key) m s h =
    ensure_job-AreJoined setup job_id url decision key m s h
perform-AreJoined setup (retry job_id) m s h =
    retry_of-AreJoined setup (owner_or_self s job_id) _ _ m s h
perform-AreJoined setup (touched job_id) m s h = touch-AreJoined job_id m s h
perform-AreJoined setup (reaped idle_after) m s h =
    end_all-AreJoined (idle_jobs idle_after m s) m s [] h
perform-AreJoined setup (stopped job_id) m s h = stop-AreJoined job_id m s h
perform-AreJoined setup (swept_off max_age names) m s h =
    forget_all-AreJoined (map listed_name (keep (λ d. d.goes) (swept max_age m s names))) s h
perform-AreJoined setup all_stopped m s h = no_books-AreJoined

-- After any operations, each at a moment of its own, every job that has joined an encode is counted among
-- the readers of that encode, whose process is in the books.
pub Reach-AreJoined : (setup : Setup) (s : Converter) → Reach setup s → AreJoined s
Reach-AreJoined setup _ fresh = no_books-AreJoined
Reach-AreJoined setup _ (after {s} r c m) =
    perform-AreJoined setup c m s (Reach-AreJoined setup s r)

-- ===== src/Transcode/Converter/Shared.antt =====
-- transcode/converter.py: whoever reads an encode keeps it.
use stremio_libtorrent_serve.Prelude.{
  ℕ, ◌≡◌, refl, sym, subst, ap, inl, inr, Bool, true, false, ◌∙◌, Option, none, some, List, [], ◌∷◌,
  arith, Bool-cases, ◌==◌, contains, leb, ◌-◌, ◌<◌,
}
use stremio_libtorrent_serve.Prelude.Members.{In, In-map, In-keep}
use stremio_libtorrent_serve.Prelude.Text.{Text, Text_eq, is_empty}
use stremio_libtorrent_serve.Prelude.Dict.{get, put, remove, get-remove}
use stremio_libtorrent_serve.Transcode.Converter.{
  Converter, Setup, Moment, Done, readers_of, owner_or_self,
}
use stremio_libtorrent_serve.Transcode.Converter.Leave.{without, stop_reader, stop}
use stremio_libtorrent_serve.Transcode.Converter.Gc.{
  idle_jobs, reap_idle, Reach, every, last_seen, is_idle, job_id_of,
}
use stremio_libtorrent_serve.Transcode.Converter.Joined.{some_readers}
use stremio_libtorrent_serve.Transcode.Converter.Joined.Steps.{
  Reach-AreJoined, contains-without, contains-nonempty, left_books,
}

stop_reader-spares :
    (job_id i o : Text) (m : Moment) (s : Converter) (rs : List Text) (r : Option (List Text))
    → r ≡ some rs
    → (job_id == i) ≡ false
    → contains rs i ≡ true
    → (stop_reader job_id o m (left_books job_id s) r).effects ≡ []
      × ((stop_reader job_id o m (left_books job_id s) r).books.owner ≡ remove job_id s.owner)
      × ((stop_reader job_id o m (left_books job_id s) r).books.jobs ≡ s.jobs)
stop_reader-spares job_id i o m s rs none q e c = absurd (cc q)
stop_reader-spares job_id i o m s rs (some rs') q e c =
    let same : rs' ≡ rs = cc q in
    let full : is_empty (without job_id rs') ≡ false =
      contains-nonempty (without job_id rs') i
        (contains-without job_id i rs' e (subst (λ t. contains t i ≡ true) (sym same) c)) in
    let one : stop_reader job_id o m (left_books job_id s) (some rs') ≡ record {
      result = tt;
      books = record (left_books job_id s) { readers = put o (without job_id rs') s.readers };
      effects = [];
    } =
      rw full refl in
    (
      ap (λ (d : Done Unit). d.effects) one,
      ap (λ (d : Done Unit). d.books.owner) one,
      ap (λ (d : Done Unit). d.books.jobs) one,
    )

-- After any operations, a job that is stopped takes nothing from another that has joined the encode that
-- it reads: no process is ended, no directory removed, and the other still reads that encode.
pub stop-spares :
    (setup : Setup) (s : Converter) (job_id i o : Text) (m : Moment)
    → Reach setup s
    → get i s.owner ≡ some o
    → owner_or_self s job_id ≡ o
    → (job_id == i) ≡ false
    → (stop job_id m s).effects ≡ []
      × (get i (stop job_id m s).books.owner ≡ some o)
      × ((stop job_id m s).books.jobs ≡ s.jobs)
unfolding stop
stop-spares setup s job_id i o m reached q own e =
    let (job, (rs, r, c)) = Reach-AreJoined setup s reached i o q in
    let r' : get (owner_or_self s job_id) s.readers ≡ some rs =
      subst (λ t. get t s.readers ≡ some rs) (sym own) r in
    let (x, y, z) =
      stop_reader-spares job_id i (owner_or_self s job_id) m s rs
        (get (owner_or_self s job_id) s.readers) r' e c in
    (x, ap (get i) y ∙ (get-remove job_id i s.owner ∙ rw e q), z)

every-contains :
    (p : Text → Bool) (xs : List Text) (a : Text)
    → every p xs ≡ true
    → contains xs a ≡ true
    → p a ≡ true
unfolding every contains
every-contains p [] a h c = absurd (cc c)
every-contains p (x ∷ xs) a h c = elim (Bool-cases (x == a)) [
  | inl e ↦
      let same : x ≡ a = (Text_eq.decides x a).0 e in
      subst (λ t. p t ≡ true) same (ground (arith, h))
  | inr e ↦ every-contains p xs a (ground (arith, h)) (ground (arith, c, e))
]

-- After any operations, `reap_idle` ends no encode that a job has joined whose client has asked for
-- something less than `idle_after` ago.
pub reap_idle-spares :
    (setup : Setup) (s : Converter) (i o : Text) (idle_after : ℕ) (m : Moment)
    → Reach setup s
    → get i s.owner ≡ some o
    → m.mono - last_seen s i < idle_after
    → ¬ In o (reap_idle idle_after m s).result
unfolding reap_idle idle_jobs
reap_idle-spares setup s i o idle_after m reached q recent member =
    let (job, (rs, r, c)) = Reach-AreJoined setup s reached i o q in
    let (found, k, same) = In-map job_id_of o _ member in
    let idle = (In-keep (is_idle idle_after m s) found s.jobs k).1 in
    let all : every (λ x. leb idle_after (m.mono - last_seen s x)) (readers_of s found.0) ≡ true =
      ground (arith, idle) in
    let c' : contains (readers_of s found.0) i ≡ true =
      subst (λ t. contains (readers_of s t) i ≡ true) same
        (subst (λ t. contains t i ≡ true) (sym (some_readers s o rs r)) c) in
    let late = every-contains _ (readers_of s found.0) i all c' in ground (arith, late, recent)

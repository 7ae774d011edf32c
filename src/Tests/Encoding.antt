-- ===== src/Tests/Encoding.antt =====
-- Two players of one film: the second joins the encode of the first.
use stremio_libtorrent_serve.Prelude.{
  ℕ, ◌≡◌, ◌-◌, ◌<◌, refl, true, false, none, some, [], ◌==◌, ltb→lt,
}
use stremio_libtorrent_serve.Prelude.Members.{In}
use stremio_libtorrent_serve.Prelude.Text.{Text_eq, text_eq, codes}
use stremio_libtorrent_serve.Prelude.Dict.{get}
use stremio_libtorrent_serve.Transcode.Converter.{
  Converter, Decision, Setup, Moment, owner_or_self, ensure_job,
}
use stremio_libtorrent_serve.Transcode.Converter.Leave.{stop}
use stremio_libtorrent_serve.Transcode.Converter.Gc.{
  Reach, fresh, after, ensure, perform, no_books, reap_idle, last_seen,
}
use stremio_libtorrent_serve.Transcode.Converter.Shared.{stop-spares, reap_idle-spares}

abbrev decision : Decision
decision = record { transcodes_video = true; has_tonemap = false; has_tracks = false }

abbrev plain : Setup
plain = record { profile = none; gpu_tonemap = false; cpu_tonemap = false }

abbrev at_second : ℕ → Moment
at_second n = record { mono = n; poll = λ p. none; process = n }

abbrev first_started : Converter
first_started =
    perform plain (ensure (codes "a") (codes "u") decision (some (codes "k"))) (at_second 5)
      no_books

abbrev both_read : Converter
both_read =
    perform plain (ensure (codes "b") (codes "u") decision (some (codes "k"))) (at_second 9)
      first_started

both_reached : Reach plain both_read
both_reached =
    after (after fresh (ensure (codes "a") (codes "u") decision (some (codes "k"))) (at_second 5))
      (ensure (codes "b") (codes "u") decision (some (codes "k"))) (at_second 9)

second_joined : get (codes "b") both_read.owner ≡ some (codes "a")
unfolding get ensure_job text_eq
second_joined = refl

first_owns : owner_or_self both_read (codes "a") ≡ codes "a"
unfolding get ensure_job text_eq
first_owns = refl

ids_differ : (codes "a" == codes "b") ≡ false
unfolding text_eq
ids_differ = refl

seen_lately : (at_second 20).mono - last_seen both_read (codes "b") < 300
unfolding get ensure_job text_eq
seen_lately = ltb→lt (20 - 9) 300 refl

stop-spares_example :
    (stop (codes "a") (at_second 10) both_read).effects ≡ []
    × (get (codes "b") (stop (codes "a") (at_second 10) both_read).books.owner ≡ some (codes "a"))
    × ((stop (codes "a") (at_second 10) both_read).books.jobs ≡ both_read.jobs)
stop-spares_example =
    stop-spares plain both_read (codes "a") (codes "b") (codes "a") (at_second 10) both_reached
      second_joined first_owns ids_differ

reap_idle-spares_example : ¬ In (codes "a") (reap_idle 300 (at_second 20) both_read).result
reap_idle-spares_example =
    reap_idle-spares plain both_read (codes "b") (codes "a") 300 (at_second 20) both_reached
      second_joined seen_lately

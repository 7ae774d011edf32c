-- ===== src/Api/MediaFetch/Vetted.antt =====
-- api/media_fetch.py: what ffmpeg is handed, and how many tickets there are.
use stremio_libtorrent_serve.Prelude.{ℕ, ◌≡◌, ◌≤◌, true, false, ◌⊎◌, Option, none, some}
use stremio_libtorrent_serve.Prelude.Int.{ℤ}
use stremio_libtorrent_serve.Prelude.Text.{Text, Text_eq, lower}
use stremio_libtorrent_serve.Prelude.Dict.{get}
use stremio_libtorrent_serve.Stream.Ranges.{int_of}
use stremio_libtorrent_serve.Proxy.Dest.{chosen_address}
use stremio_libtorrent_serve.Api.MediaFetch.Inspected.{IsAbsent, IsWholeHead}
use stremio_libtorrent_serve.Api.MediaFetch.{
  Ticket, Tickets, Url, Outside, is_stream_path, looks_like_manifest, take_first, drop_codes,
  MediaInput, direct, reading, answered, crashed, is_own_host,
}

abbrev pub own_hash : Text → Text
own_hash path = lower (take_first 40 (drop_codes 1 path))

module _ (x : Outside) where
  -- Why the server's own stream may be opened: its index is no number, or there was nothing to inspect, or
  -- the head of its file was read whole and begins no manifest.
  pub Passed : Text → Option ℤ → Type 0
  Passed path o =
      (o ≡ none)
      ⊎ ((idx : ℤ) × (o ≡ some idx)
          × (IsAbsent x.engine (own_hash path) idx
              ⊎ ((head : Text) × IsWholeHead x.engine (own_hash path) idx head
                  × (looks_like_manifest head ≡ false))))

  -- The server's own stream of a torrent's file that may be opened.
  abbrev pub IsOwnStream : Text → Type 0
  IsOwnStream url =
      (u : Url) × (x.urlsplit url ≡ some u)
      × (is_own_host x (lower u.hostname) ≡ true)
      × (is_stream_path u.path ≡ true)
      × Passed u.path (int_of (drop_codes 42 u.path))

  -- A ticket for a destination that the client may reach.
  abbrev pub IsJudged : Ticket → Type 0
  IsJudged t =
      (t.for_home ≡ x.is_home)
      × ((u : Url) × (port : ℕ) × (address : Text) × (x.urlsplit t.url ≡ some u)
          × (x.pick_address u.hostname port x.is_home ≡ chosen_address address))

  abbrev pub IsVetted : MediaInput × Tickets → Type 0
  IsVetted (direct url, tickets) = IsOwnStream url
  IsVetted (reading id, tickets) = (t : Ticket) × (get id tickets ≡ some t) × IsJudged t
  IsVetted (answered status, tickets) = 400 ≤ status
  IsVetted (crashed, tickets) = Unit

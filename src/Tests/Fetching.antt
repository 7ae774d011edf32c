-- ===== src/Tests/Fetching.antt =====
-- A client that gives the URL of the server's own stream, and a file with two audio tracks.
use stremio_libtorrent_serve.Prelude.{
  ℕ, ◌≡◌, Bool, refl, true, false, none, some, [], ◌∷◌, leb, nat_eq, if◌then◌else◌, All,
}
use stremio_libtorrent_serve.Prelude.Int.{pos}
use stremio_libtorrent_serve.Prelude.Text.{codes}
use stremio_libtorrent_serve.Stream.FileServer.{round}
use stremio_libtorrent_serve.Api.MediaFetch.Head.{Source, inspected, torrent_head}
use stremio_libtorrent_serve.Proxy.Dest.{chosen_address}
use stremio_libtorrent_serve.Api.MediaFetch.{Outside, Url}
use stremio_libtorrent_serve.Transcode.Master.{Track, renditions}
use stremio_libtorrent_serve.Transcode.Master.Renditions.{IsSafe, chosen_count, renditions-AreSafe}

-- the stream of a torrent's only file, which is ten bytes long and there
abbrev own_url : Url
own_url = record {
  scheme = codes "http";
  hostname = codes "box";
  port_read = some none;
  path = codes "/0123456789abcdef0123456789abcdef01234567/0";
  query = [];
}

abbrev film : Source
film = record {
  has_metadata = true;
  ready_at = 0;
  files = (codes "film.mkv", 10) ∷ [];
  piece_length = 16;
  num_pieces = 1;
  file_offset = λ i. some 0;
  world = λ i. record {
    valid = λ t. true;
    have_piece = λ t piece. true;
    read = λ t at n. if nat_eq at 0 then some (codes "0123456789") else some [];
    consume = λ at. 1;
  };
}

abbrev box : Outside
box = record {
  urlsplit = λ url. some own_url;
  is_loopback = λ host. false;
  server_host = codes "box";
  is_home = false;
  pick_address = λ host port home. chosen_address (codes "1.1.1.1");
  parse = λ raw. none;
  engine = λ ih. some film;
  first_piece_timeout = 0;
}

film_head : torrent_head 0 box.engine (codes "ab") (pos 0) ≡ inspected (codes "0123456789")
unfolding torrent_head round
film_head = refl

abbrev english : Track
english = record { title = codes "Main"; lang = codes "en"; is_default = false }

abbrev french : Track
french = record { title = codes "Main"; lang = codes "fr"; is_default = true }

abbrev printable : ℕ → Bool
printable c = leb 32 c

renditions-AreSafe_example :
    (chosen_count (renditions printable (english ∷ french ∷ [])) ≡ 1)
    × All IsSafe (renditions printable (english ∷ french ∷ []))
renditions-AreSafe_example = renditions-AreSafe printable refl refl english (french ∷ [])

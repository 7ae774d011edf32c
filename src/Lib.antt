-- ===== src/Lib.antt =====
-- A verification library for stremio-libtorrent-server, the streaming server that reads torrents
-- through libtorrent and serves their files to a player over HTTP.
--
-- The program: `src/stremiosrv/torrent` wraps libtorrent (`engine.py`: one `Handle` per torrent, and
-- the `Engine` with its policy loops), `src/stremiosrv/stream` turns a byte range of a file into
-- pieces that are rushed, awaited and read (`fileserver.py`, `ranges.py`), and
-- `src/stremiosrv/cache.py` keeps the directory that both write to within its budget, alone among
-- the servers that may share it. A playback request parses its Range header, focuses the file on the
-- handle, and runs the generator `wait_and_read`, which boosts pieces on that handle; the evictor
-- asks the engine and the pin registry what it must not delete. `src/stremiosrv/library` lets its
-- owner in, learns what a torrent is and offers it to the app, `src/stremiosrv/proxy` passes other
-- servers' playlists on, `src/stremiosrv/transcode` keeps the encodes that players share,
-- `src/stremiosrv/api` decides what ffmpeg may open, and `metrics.py` and `unmatched.py` count what
-- the rest reports.
--
-- The files:
-- - Prelude and its children: numbers, lists, texts as lists of code points, dictionaries in
--   insertion order, integers, a stable sort, numerals, names of files, membership.
-- - Stream.FileServer: `wait_and_read`. The torrent, the disk and the consumer are a `World`, times
--   are whole milliseconds, and a poll takes 200 of them. Its state is the generator's variables with
--   the bytes handed out, the boosts and the reads so far. The wait for a piece has one more round of
--   fuel than its budget has milliseconds, the loop one more than the range has bytes (each round
--   hands out a byte at least). Children: Outcome (one round), Served, Complete and Window.
-- - Stream.Ranges: `parse_range`, with Python's `int` on ASCII text. Children: Decimal, Bounds, Forms.
-- - Torrent.Picker: `pieces_for_range` and `priority_plan` of torrent/picker.py. Child: Cover.
-- - Torrent.Policy: the decisions of torrent/engine.py about seeding, download caps and piece order,
--   and the loops `_enforce_seed_policy` and `_apply_bandwidth_policy`. Child: Laws.
-- - Torrent.Handle: `Handle` of torrent/engine.py, its state as a record with the list of the calls
--   that libtorrent accepted. A call may be refused (it raises), and the methods go on as their
--   `except` clauses do. Children: Priorities, Quiet (what the calls do to the file priorities is the
--   interface `FilePriorities`), Synced (the operations as a step relation), Wanted,
--   Present (complete files).
-- - Torrent.Wanted: `select_wanted_file` and `guess_file_idx` of pins.py. Children: Episode
--   (`names_episode`), Named, Largest.
-- - Torrent.Engine: `Engine` of torrent/engine.py as far as it holds torrents, with wanted.py and the
--   registry and disk guard of pins.py. What an operation asks of libtorrent and of the disk is a
--   `Surroundings`. Children: Wants (`want`, `unwant`, `_apply_wanted`), Pins (`pin`, `unpin`),
--   Startup (`load_pins_into_session`), Agreed, Pinned (the operations as a step relation), Restart.
-- - Torrent.Trackers: torrent/trackers.py, and `TrackerSource` of torrent/tracker_source.py with its
--   cache file. Children: Lists, Reboot.
-- - Torrent.Prefetch: `head_pieces` and `tail_pieces` of torrent/prefetch.py. Child: Ends.
-- - Cache.Eviction: `select_evictions`. What `int(budget * ratio)` gives is a parameter, `target_of`.
--   Child: Choice.
-- - Cache.Pass: `scan_cache` and `evict_once` on a `Scene` of what the pass reads. Child: Protection.
-- - Cache.Resume: `sweep_resume`, with what it reads as a `Shelf`. Child: Sweep.
-- - Cache.Owner: the claim on a cache root and one round of `run_evictor`. Children: Exclusion, Sweeps.
-- - Stats.Metrics: the counters of metrics.py. Child: Tally.
-- - Stats.Unmatched: unmatched.py. Children: Shapes, Tally.
-- - Library.RateLimit: `RateLimiter` of library/ratelimit.py. Child: Window, with the limiter that it
--   refines.
-- - Library.Session: library/session.py, with its state file as the value it holds. Children: Sessions,
--   Owner.
-- - Library.Labels: library/labels.py, with labels.json as the JSON value that it holds. Child: Kept.
-- - Library.Addon: library/addon_model.py, what the library offers to the app. Children: Ids
--   (RoundTrip), Choice (which file is meant; Playable), Rows (the lines of a row), Streams
--   (`streams_for_meta_id`; Offers), Learned (what a playback teaches; Hits, Film), Cards (Videos).
-- - Library.TorrentFiles: the bencode decoder of library/torrentfiles.py. Its fuel is twice the bytes
--   and one more, since a value and the loop around it take a round each. Children: Info
--   (`parse_info` and `_read`), Fuel, Listed.
-- - Proxy.Playlist: the rewriting of playlists in proxy/playlist.py. Child: Whole (the playlist rewritten
--   at once; Uris and Mapped say of each line what comes out for it, Same that what is not mapped stays).
-- - Proxy.Opts: proxy/opts.py, and what a URL is rewritten to. What urllib does is an argument. Child:
--   Headers.
-- - Proxy.Dest: proxy/dest.py, with the address library and the resolver as arguments. Child: Picked.
-- - Transcode.Converter: the registry of transcode/converter.py. What an operation does to processes
--   and directories is a list of effects. Children: Leave (`stop`), Gc (`reap_idle`, `sweep`,
--   `stop_all`, and any sequence of operations), Joined, Shared.
-- - Transcode.Master: `audio_master` of transcode/converter.py. Child: Renditions.
-- - Api.MediaFetch: the tickets and `resolve_media_input` of api/media_fetch.py; child Head: `_torrent_head`.
--   Further children: Inspected, Vetted.
-- - Tests: the theorems at concrete inputs.
--
-- Not modelled: threads (each operation is one step), the sizes of files on disk and the walk of the
-- cache directory (an entry comes with its size and time), log output, the engine's alerts and its
-- prefetch loop, the DHT state, and the parts of the server around these: the HTTP routes, the
-- library's pages, subtitles, the command lines of ffmpeg, the proxy's connections and the settings.
pub mod Prelude
pub mod Stream
pub mod Torrent
pub mod Cache
pub mod Stats
pub mod Library
pub mod Proxy
pub mod Transcode
pub mod Api
pub mod Tests

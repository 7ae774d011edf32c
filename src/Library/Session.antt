-- ===== src/Library/Session.antt =====
-- library/session.py: the owner of the box and the browsers' sessions, in one state file. A `StateFile` is
-- what the file holds, none where it is absent or not to be read; a value that is no record (and not
-- null) is none there, and a missing expiry is 0. Tokens come from outside, and saving succeeds. Times are whole
-- seconds.
pub mod Sessions
pub mod Owner
use stremio_libtorrent_serve.Prelude.{
  ℕ, ◌+◌, Bool, true, false, not, ◌&&◌, ◌||◌, Option, none, some, List, [], ◌∷◌, leb, ltb,
  if◌then◌else◌, ◌==◌, keep, is_some, length, nat_eq,
}
use stremio_libtorrent_serve.Prelude.Text.{Text, Text_eq, is_empty}
use stremio_libtorrent_serve.Prelude.Dict.{Dict, get, put, remove}

pub record Session : Type 0 where
  pub created : ℕ
  pub expires : ℕ

pub record UiState : Type 0 where
  pub owner_id : Text
  pub sessions : Dict Text (Option Session)
  pub addon_token : Text

abbrev pub StateFile : Type 0
StateFile = Option UiState

-- `_empty`
abbrev pub empty_state : UiState
empty_state = record { owner_id = []; sessions = []; addon_token = [] }

abbrev pub load_state : StateFile → UiState
load_state none = empty_state
load_state (some s) = s

abbrev pub save_state : UiState → StateFile
save_state s = some s

-- What `getUser` says of an account.
pub record User : Type 0 where
  pub id : Text
  pub email : Text

unfoldable pub owner_matches : User → Text → Text → Bool
owner_matches user pinned_id configured =
    if not (is_empty configured)
    then configured == user.id || configured == user.email
    else if is_empty pinned_id
    then true
    else user.id == pinned_id

-- the owner's id, or `OwnerMismatch`
pub data Claimed : Type 0 where
  owner : Text → Claimed
  mismatch : Claimed

unfoldable pub claim_owner : User → Text → StateFile → Claimed × StateFile
unfolding owner_matches
claim_owner user configured file =
    let state = load_state file in
    if not (owner_matches user state.owner_id configured)
    then (mismatch, file)
    else if is_empty user.id
    then (mismatch, file)
    else if state.owner_id == user.id
    then (owner user.id, file)
    else (owner user.id, save_state (record state { owner_id = user.id }))

unfoldable pub new_session : Text → ℕ → ℕ → StateFile → StateFile
new_session sid ttl now file =
    let state = load_state file in
    save_state (record state {
      sessions = put sid (some (record { created = now; expires = now + ttl })) state.sessions;
    })

-- `isinstance(v, dict) and v.get("expires", 0) > now`
abbrev pub is_live : ℕ → Option Session → Bool
is_live now none = false
is_live now (some s) = ltb now s.expires

abbrev pub entry_or_none : Option (Option Session) → Option Session
entry_or_none none = none
entry_or_none (some s) = s

unfoldable pub verify_session : Text → ℕ → StateFile → Bool × StateFile
verify_session sid now file =
    let state = load_state file in
    let left = keep (λ (k, v). is_live now v) state.sessions in
    if is_empty sid then (false, file) else (
      is_live now (entry_or_none (get sid state.sessions)),
      if nat_eq (length left) (length state.sessions)
          then file
          else save_state (record state { sessions = left }),
    )

unfoldable pub drop_session : Text → StateFile → StateFile
drop_session sid file =
    let state = load_state file in
    if is_some (get sid state.sessions)
    then save_state (record state { sessions = remove sid state.sessions })
    else file

unfoldable pub ensure_addon_token : Text → StateFile → Text × StateFile
ensure_addon_token fresh file =
    let state = load_state file in
    if is_empty state.addon_token
    then (fresh, save_state (record state { addon_token = fresh }))
    else (state.addon_token, file)

unfoldable pub reset_addon_token : Text → StateFile → Text × StateFile
reset_addon_token fresh file =
    (fresh, save_state (record (load_state file) { addon_token = fresh }))

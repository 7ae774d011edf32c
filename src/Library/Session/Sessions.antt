-- ===== src/Library/Session/Sessions.antt =====
-- Which browsers hold a session: the state file is a map from tokens to the times that they expire.
use stremio_libtorrent_serve.Prelude.{
  ℕ, ◌+◌, ◌≤◌, ◌≡◌, refl, sym, ap, ap₂, ◌∙◌, Bool, false, not, ◌&&◌, Option, none, some, List, [],
  ◌∷◌, arith, ltb, nat_eq, if◌then◌else◌, ◌==◌, keep, length, Bool-cases, Option-cases, inl, inr,
}
use stremio_libtorrent_serve.Prelude.Text.{Text, Text_eq, is_empty, text_eq_iff}
use stremio_libtorrent_serve.Prelude.Dict.{Dict, get, put, remove, get-put, get-remove}
use stremio_libtorrent_serve.Prelude.Dict.Unique.{
  IsUnique, keep_value, get-keep, keep-IsUnique, put-IsUnique, remove-IsUnique,
}
use stremio_libtorrent_serve.Library.Session.{
  Session, StateFile, load_state, User, claim_owner, new_session, is_live, entry_or_none,
  verify_session, drop_session, ensure_addon_token, reset_addon_token,
}

-- A request that reads or writes the state file, with the token that it mints where it mints one.
pub data SessionRequest : Type 0 where
  sign_in : User → Text → SessionRequest
  open_door : Text → ℕ → SessionRequest
  check : Text → SessionRequest
  sign_out : Text → SessionRequest
  read_token : Text → SessionRequest
  new_token : Text → SessionRequest

-- The file after a request at a time.
unfoldable pub serve : ℕ → SessionRequest → StateFile → StateFile
serve now (sign_in user configured) file = (claim_owner user configured file).1
serve now (open_door sid ttl) file = new_session sid ttl now file
serve now (check sid) file = (verify_session sid now file).1
serve now (sign_out sid) file = drop_session sid file
serve now (read_token fresh) file = (ensure_addon_token fresh file).1
serve now (new_token fresh) file = (reset_addon_token fresh file).1

-- the answers to the checks
unfoldable pub verdicts : List (ℕ × SessionRequest) → StateFile → List Bool
unfolding serve
verdicts [] file = []
verdicts ((now, check sid) ∷ requests) file =
    (verify_session sid now file).0 ∷ verdicts requests (serve now (check sid) file)
verdicts ((now, r) ∷ requests) file = verdicts requests (serve now r file)

-- The abstract store: when the session of a token expires, if it has one.
abbrev pub Door : Type 0
Door = Text → Option ℕ

abbrev pub is_open : ℕ → Option ℕ → Bool
is_open now none = false
is_open now (some expires) = ltb now expires

abbrev pub change : Door → Text → Option ℕ → Door
change door sid expires k = if sid == k then expires else door k

unfoldable pub ideal_verdicts : List (ℕ × SessionRequest) → Door → List Bool
ideal_verdicts [] door = []
ideal_verdicts ((now, open_door sid ttl) ∷ requests) door =
    ideal_verdicts requests (change door sid (some (now + ttl)))
ideal_verdicts ((now, check sid) ∷ requests) door =
    (not (is_empty sid) && is_open now (door sid)) ∷ ideal_verdicts requests door
ideal_verdicts ((now, sign_out sid) ∷ requests) door =
    ideal_verdicts requests (change door sid none)
ideal_verdicts ((now, r) ∷ requests) door = ideal_verdicts requests door

abbrev pub InOrder : ℕ → List (ℕ × SessionRequest) → Type 0
InOrder t [] = Unit
InOrder t ((now, r) ∷ requests) = (t ≤ now) × InOrder now requests

-- What the file says of a token at any time still to come is what the map says.
record Agrees (now : ℕ) (sessions : Dict Text (Option Session)) (door : Door) : Type 0 where
  unique : IsUnique sessions
  agrees :
      (k : Text) (later : ℕ)
      → now ≤ later
      → is_live later (entry_or_none (get k sessions)) ≡ is_open later (door k)

abbrev sessions_of : StateFile → Dict Text (Option Session)
sessions_of file = (load_state file).sessions

Agrees-later :
    (t now : ℕ) (m : Dict Text (Option Session)) (door : Door)
    → t ≤ now
    → Agrees t m door
    → Agrees now m door
Agrees-later t now m door h a = record {
  unique = a.unique;
  agrees = λ k later le. a.agrees k later (omega arith);
}

put-Agrees :
    (now : ℕ) (m : Dict Text (Option Session)) (door : Door) (sid : Text) (created expires : ℕ)
    → Agrees now m door
    → Agrees now
        (put sid (some (record { created = created; expires = expires })) m)
        (change door sid (some expires))
put-Agrees now m door sid created expires a = record {
  unique = put-IsUnique sid _ m a.unique;
  agrees = λ k later le.
      rw (get-put sid k (some (record { created = created; expires = expires })) m)
        (elim (Bool-cases (sid == k)) [ inl e ↦ rw e refl | inr e ↦ rw e (a.agrees k later le) ]);
}

remove-Agrees :
    (now : ℕ) (m : Dict Text (Option Session)) (door : Door) (sid : Text)
    → Agrees now m door
    → Agrees now (remove sid m) (change door sid none)
remove-Agrees now m door sid a = record {
  unique = remove-IsUnique sid m a.unique;
  agrees = λ k later le.
      rw (get-remove sid k m)
        (elim (Bool-cases (sid == k)) [ inl e ↦ rw e refl | inr e ↦ rw e (a.agrees k later le) ]);
}

-- a session that has expired stays so
live_later :
    (now later : ℕ) (o : Option (Option Session))
    → now ≤ later
    → is_live later (entry_or_none (keep_value (is_live now) o)) ≡ is_live later (entry_or_none o)
live_later now later none h = refl
live_later now later (some none) h = refl
live_later now later (some (some s)) h = ground arith

keep-Agrees :
    (now : ℕ) (m : Dict Text (Option Session)) (door : Door)
    → Agrees now m door
    → Agrees now (keep (λ (k, v). is_live now v) m) door
keep-Agrees now m door a = record {
  unique = keep-IsUnique (λ (k, v). is_live now v) m a.unique;
  agrees = λ k later le.
      ap (λ o. is_live later (entry_or_none o)) (get-keep (is_live now) k m a.unique)
      ∙ live_later now later (get k m) le
      ∙ a.agrees k later le;
}

claim_owner-sessions :
    (user : User) (configured : Text) (file : StateFile)
    → sessions_of (claim_owner user configured file).1 ≡ sessions_of file
unfolding claim_owner
claim_owner-sessions user configured file = ground arith

ensure_addon_token-sessions :
    (fresh : Text) (file : StateFile)
    → sessions_of (ensure_addon_token fresh file).1 ≡ sessions_of file
unfolding ensure_addon_token
ensure_addon_token-sessions fresh file = ground arith

verify_session-Agrees :
    (sid : Text) (now : ℕ) (file : StateFile) (door : Door)
    → Agrees now (sessions_of file) door
    → Agrees now (sessions_of (verify_session sid now file).1) door
unfolding verify_session
verify_session-Agrees sid now file door a = elim (Bool-cases (is_empty sid)) [
  | inl e ↦ rw (e, verify_session) a
  | inr e ↦
      let left = keep (λ (k, v). is_live now v) (sessions_of file) in
      elim (Bool-cases (nat_eq (length left) (length (sessions_of file)))) [
        | inl same ↦ rw (e, verify_session) (rw same a)
        | inr fewer ↦ rw (e, verify_session) (rw fewer (keep-Agrees now (sessions_of file) door a))
      ]
]

verify_session-verdict :
    (sid : Text) (now : ℕ) (file : StateFile) (door : Door)
    → Agrees now (sessions_of file) door
    → (verify_session sid now file).0 ≡ (not (is_empty sid) && is_open now (door sid))
unfolding verify_session
verify_session-verdict sid now file door a = elim (Bool-cases (is_empty sid)) [
  | inl e ↦ rw (e, verify_session) refl
  | inr e ↦ rw (e, verify_session) (a.agrees sid now (omega arith))
]

drop_session-Agrees :
    (sid : Text) (now : ℕ) (file : StateFile) (door : Door)
    → Agrees now (sessions_of file) door
    → Agrees now (sessions_of (drop_session sid file)) (change door sid none)
unfolding drop_session
drop_session-Agrees sid now file door a = elim (Option-cases (get sid (sessions_of file))) [
  | inl absent ↦
      rw (absent, drop_session)
        (record {
          unique = a.unique;
          agrees = λ k later le. elim (Bool-cases (sid == k)) [
            | inl e ↦
                let here : sid ≡ k = (text_eq_iff sid k).0 e in
                rw e (
                  ap (λ x. is_live later (entry_or_none (get x (sessions_of file)))) (sym here)
                  ∙ rw absent refl)
            | inr e ↦ rw e (a.agrees k later le)
          ];
        })
  | inr (s, present) ↦ rw (present, drop_session) (remove-Agrees now (sessions_of file) door sid a)
]

verdicts-agree :
    (requests : List (ℕ × SessionRequest)) (t : ℕ) (file : StateFile) (door : Door)
    → Agrees t (sessions_of file) door
    → InOrder t requests
    → verdicts requests file ≡ ideal_verdicts requests door
unfolding verdicts ideal_verdicts new_session reset_addon_token
verdicts-agree [] t file door a o = refl
verdicts-agree ((now, sign_in user configured) ∷ requests) t file door a o =
    verdicts-agree requests now _ door
      (rw (claim_owner-sessions user configured file) (Agrees-later t now _ door o.0 a)) o.1
verdicts-agree ((now, open_door sid ttl) ∷ requests) t file door a o =
    verdicts-agree requests now _ _
      (put-Agrees now (sessions_of file) door sid now (now + ttl) (Agrees-later t now _ door o.0 a))
      o.1
verdicts-agree ((now, check sid) ∷ requests) t file door a o =
    let b = Agrees-later t now (sessions_of file) door o.0 a in
    ap₂ ◌∷◌ (verify_session-verdict sid now file door b)
      (verdicts-agree requests now _ door (verify_session-Agrees sid now file door b) o.1)
verdicts-agree ((now, sign_out sid) ∷ requests) t file door a o =
    verdicts-agree requests now _ _
      (drop_session-Agrees sid now file door (Agrees-later t now (sessions_of file) door o.0 a)) o.1
verdicts-agree ((now, read_token fresh) ∷ requests) t file door a o =
    verdicts-agree requests now _ door
      (rw (ensure_addon_token-sessions fresh file) (Agrees-later t now _ door o.0 a)) o.1
verdicts-agree ((now, new_token fresh) ∷ requests) t file door a o =
    verdicts-agree requests now _ door (Agrees-later t now _ door o.0 a) o.1

-- From a box without a state file, as long as time does not go back: whatever accounts sign in, sessions
-- are opened, checked and dropped and tokens are read and replaced, each check answers as a map from
-- tokens to expiry times does, in which a sign-in and a token change nothing, opening a session sets its
-- expiry, dropping it takes it out, and expired entries are never removed.
pub verdicts-refine :
    (requests : List (ℕ × SessionRequest))
    → InOrder 0 requests
    → verdicts requests none ≡ ideal_verdicts requests (λ sid. none)
unfolding get
verdicts-refine requests o =
    verdicts-agree requests 0 none (λ sid. none)
      (record { unique = tt; agrees = λ k later le. refl }) o

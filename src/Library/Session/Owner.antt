-- ===== src/Library/Session/Owner.antt =====
-- Whose box it is: the first account that signs in, unless the operator names one.
use stremio_libtorrent_serve.Prelude.{
  ℕ, ◌≡◌, refl, ap, false, none, some, List, [], ◌∷◌, arith, if◌then◌else◌, ◌==◌, All, beq_refl,
}
use stremio_libtorrent_serve.Prelude.Text.{Text, Text_eq, is_empty, text_eq_iff}
use stremio_libtorrent_serve.Library.Session.{
  StateFile, load_state, User, owner_matches, Claimed, owner, mismatch, claim_owner, new_session,
  verify_session, drop_session, ensure_addon_token, reset_addon_token,
}
use stremio_libtorrent_serve.Library.Session.Sessions.{
  SessionRequest, sign_in, open_door, check, sign_out, read_token, new_token, serve,
}

-- The answers to the sign-ins, each with the account that asked.
unfoldable pub claims : List (ℕ × SessionRequest) → StateFile → List (User × Claimed)
unfolding serve
claims [] file = []
claims ((now, sign_in user configured) ∷ requests) file =
    (user, (claim_owner user configured file).0)
    ∷ claims requests (serve now (sign_in user configured) file)
claims ((now, r) ∷ requests) file = claims requests (serve now r file)

-- The operator has named no owner.
abbrev pub IsUnconfigured : ℕ × SessionRequest → Type 0
IsUnconfigured (now, sign_in user configured) = configured ≡ []
IsUnconfigured (now, r) = Unit

abbrev pub owner_of : StateFile → Text
owner_of file = (load_state file).owner_id

-- An answer that grants the owner and refuses everyone else.
abbrev pub IsFor : Text → User × Claimed → Type 0
IsFor pin (user, c) = c ≡ (if user.id == pin then owner pin else mismatch)

serve-owner :
    (now : ℕ) (r : SessionRequest) (file : StateFile) (pin : Text)
    → is_empty pin ≡ false
    → IsUnconfigured (now, r)
    → owner_of file ≡ pin
    → owner_of (serve now r file) ≡ pin
unfolding serve claim_owner new_session verify_session drop_session ensure_addon_token
    reset_addon_token is_empty
serve-owner now (sign_in user configured) file pin named u e =
    ground (arith, text_eq_iff (owner_of file) user.id, text_eq_iff user.id (owner_of file))
serve-owner now (open_door sid ttl) file pin named u e = e
serve-owner now (check sid) file pin named u e = ground arith
serve-owner now (sign_out sid) file pin named u e = ground arith
serve-owner now (read_token fresh) file pin named u e = ground arith
serve-owner now (new_token fresh) file pin named u e = e

claim_owner-IsFor :
    (user : User) (file : StateFile) (pin : Text)
    → is_empty pin ≡ false
    → owner_of file ≡ pin
    → IsFor pin (user, (claim_owner user [] file).0)
unfolding claim_owner is_empty
claim_owner-IsFor user file pin named e = ground (
  arith,
  text_eq_iff user.id (owner_of file),
  text_eq_iff (owner_of file) user.id,
  text_eq_iff user.id pin,
)

claims_of_owner :
    (requests : List (ℕ × SessionRequest)) (file : StateFile) (pin : Text)
    → is_empty pin ≡ false
    → All IsUnconfigured requests
    → owner_of file ≡ pin
    → All (IsFor pin) (claims requests file)
unfolding claims
claims_of_owner [] file pin named u e = tt
claims_of_owner ((now, sign_in user configured) ∷ requests) file pin named u e =
    let first : IsFor pin (user, (claim_owner user configured file).0) =
      rw u.0 (claim_owner-IsFor user file pin named e) in
    (
      first,
      claims_of_owner requests _ pin named u.1
          (serve-owner now (sign_in user configured) file pin named u.0 e),
    )
claims_of_owner ((now, open_door sid ttl) ∷ requests) file pin named u e =
    claims_of_owner requests _ pin named u.1
      (serve-owner now (open_door sid ttl) file pin named u.0 e)
claims_of_owner ((now, check sid) ∷ requests) file pin named u e =
    claims_of_owner requests _ pin named u.1 (serve-owner now (check sid) file pin named u.0 e)
claims_of_owner ((now, sign_out sid) ∷ requests) file pin named u e =
    claims_of_owner requests _ pin named u.1 (serve-owner now (sign_out sid) file pin named u.0 e)
claims_of_owner ((now, read_token fresh) ∷ requests) file pin named u e =
    claims_of_owner requests _ pin named u.1
      (serve-owner now (read_token fresh) file pin named u.0 e)
claims_of_owner ((now, new_token fresh) ∷ requests) file pin named u e =
    claims_of_owner requests _ pin named u.1
      (serve-owner now (new_token fresh) file pin named u.0 e)

first_claim :
    (user : User)
    → is_empty user.id ≡ false
    → claim_owner user [] none
      ≡ (owner user.id, some (record { owner_id = user.id; sessions = []; addon_token = [] }))
unfolding claim_owner owner_matches is_empty
first_claim user named = ground (arith, text_eq_iff [] user.id)

-- On a box without a state file and without a configured owner, the first account that signs in, if it
-- has an id, owns the box for good: whatever requests follow, every sign-in of that account is granted
-- and every other one refused.
pub claims-IsFor :
    (user : User) (now : ℕ) (requests : List (ℕ × SessionRequest))
    → is_empty user.id ≡ false
    → All IsUnconfigured requests
    → All (IsFor user.id) (claims ((now, sign_in user []) ∷ requests) none)
unfolding claims serve
claims-IsFor user now requests named u =
    let first = first_claim user named in
    (
      rw first (rw (beq_refl {A = Text} user.id) refl),
      claims_of_owner requests _ user.id named u (ap (λ c. owner_of c.1) first),
    )

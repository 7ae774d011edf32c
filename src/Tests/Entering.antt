-- ===== src/Tests/Entering.antt =====
-- Two addresses at the sign-in, and an owner with a guest.
use stremio_libtorrent_serve.Prelude.{ℕ, ◌≡◌, refl, arith, none, List, [], ◌∷◌, All}
use stremio_libtorrent_serve.Prelude.Text.{Text, codes}
use stremio_libtorrent_serve.Prelude.Text.{is_empty}
use stremio_libtorrent_serve.Library.RateLimit.Window.{answers, ideal_answers}
use stremio_libtorrent_serve.Library.RateLimit.Window.Agreement.{answers-refine}
use stremio_libtorrent_serve.Library.Session.{User}
use stremio_libtorrent_serve.Library.Session.Sessions.{
  SessionRequest, sign_in, open_door, check, sign_out, read_token, verdicts, ideal_verdicts,
  verdicts-refine,
}
use stremio_libtorrent_serve.Library.Session.Owner.{claims, IsFor, claims-IsFor}

abbrev attempts : List (Text × ℕ)
attempts = (codes "a", 1) ∷ (codes "a", 2) ∷ (codes "b", 3) ∷ (codes "a", 4) ∷ (codes "a", 62) ∷ []

answers-refine_example :
    answers (record { limit = 2; window = 60; hits = [] }) attempts ≡ ideal_answers 2 60 [] attempts
answers-refine_example =
    answers-refine 2 60 attempts
      (omega arith, (omega arith, (omega arith, (omega arith, (omega arith, (tt))))))

abbrev owner_user : User
owner_user = record { id = codes "ann"; email = codes "ann@example.org" }

abbrev guest : User
guest = record { id = codes "bob"; email = [] }

abbrev evening : List (ℕ × SessionRequest)
evening =
    (5, sign_in owner_user [])
    ∷ (6, open_door (codes "s1") 10)
    ∷ (7, sign_in guest [])
    ∷ (8, check (codes "s1"))
    ∷ (9, read_token (codes "t"))
    ∷ (16, check (codes "s1"))
    ∷ (17, open_door (codes "s2") 10)
    ∷ (18, sign_out (codes "s2"))
    ∷ (19, check (codes "s2"))
    ∷ []

verdicts-refine_example : verdicts evening none ≡ ideal_verdicts evening (λ sid. none)
verdicts-refine_example = verdicts-refine evening (
  omega arith,
  (
    omega arith,
    (
      omega arith,
      (
        omega arith,
        (omega arith, (omega arith, (omega arith, (omega arith, (omega arith, (tt)))))),
      ),
    ),
  ),
)

claims-IsFor_example :
    All (IsFor (codes "ann")) (claims ((1, sign_in owner_user []) ∷ evening) none)
unfolding is_empty
claims-IsFor_example =
    claims-IsFor owner_user 1 evening refl
      (refl, (tt, (refl, (tt, (tt, (tt, (tt, (tt, (tt, (tt))))))))))

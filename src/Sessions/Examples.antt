-- ===== src/Sessions/Examples.antt =====
-- A session whose identifier is `ab`, under a toy signature.
use openunion.Prelude.{ℕ, ◌≡◌, refl, none, some, List, [], ◌∷◌, arith}
use openunion.Prelude.Tables.{find}
use openunion.Sessions.{
  SignEnv, Session, create_session, verify_session_cookie, get_session, revoke_session, new_session,
  text_eq,
}
use openunion.Sessions.Cookies.{session_found}

abbrev toy : SignEnv
toy = record { sign_session_id = λ id. b'f' ∷ b'0' ∷ []; unhex = λ s. s }

abbrev id : List ℕ
id = b'a' ∷ b'b' ∷ []

no_session : find (λ (s : Session). text_eq s.id id) [] ≡ none
unfolding find
no_session = refl

session_found_example :
    (verify_session_cookie toy (create_session toy id 1 1000 2 3 4 60 []).1 ≡ some id)
    × (get_session 2000 id (create_session toy id 1 1000 2 3 4 60 []).0
        ≡ some (new_session id 2 3 4 1 1000 60))
    × (get_session 9000 id (revoke_session 3000 id (create_session toy id 1 1000 2 3 4 60 []).0)
        ≡ none)
session_found_example =
    session_found toy id 1 1000 2000 2 3 4 60 3000 9000 [] (refl, (refl, tt)) (refl, (refl, tt))
      no_session (omega arith)

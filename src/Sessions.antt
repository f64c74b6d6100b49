-- ===== src/Sessions.antt =====
-- src/auth/sessions.ts: sessions and their signed cookies. Texts are lists of characters; the HMAC,
-- its hexadecimal form and the decoder are parameters.
pub mod Cookies
mod Examples
use openunion.Prelude.{
  ℕ, ◌+◌, ◌*◌, Bool, true, false, Option, none, some, List, [], ◌∷◌, ◌++◌, ◌&&◌, not, ltb, ◌==◌,
  if◌then◌else◌, is_some, length,
}
use openunion.Prelude.Tables.{find, update}

pub record Session : Type 0 where
  pub id : List ℕ
  pub user_id : ℕ
  pub org_id : ℕ
  pub role : ℕ
  pub csrf_secret : ℕ
  pub expires_at : ℕ
  pub revoked_at : Option ℕ

-- `signSessionId`, in hexadecimal, and `Buffer.from(_, 'hex')`.
pub record SignEnv : Type 0 where
  pub sign_session_id : List ℕ → List ℕ
  pub unhex : List ℕ → List ℕ

abbrev pub dot : ℕ
dot = b'.'

abbrev pub push : ℕ → List (List ℕ) → List (List ℕ)
push c [] = (c ∷ []) ∷ []
push c (part ∷ parts) = (c ∷ part) ∷ parts

-- `cookieValue.split('.')`
pub split_dots : List ℕ → List (List ℕ)
split_dots [] = [] ∷ []
split_dots (c ∷ s) = let rest = split_dots s in if c == dot then [] ∷ rest else push c rest

unfoldable pub text_eq : List ℕ → List ℕ → Bool
text_eq [] [] = true
text_eq [] (x ∷ s) = false
text_eq (c ∷ p) [] = false
text_eq (c ∷ p) (x ∷ s) = c == x && text_eq p s

pub verify_parts : SignEnv → List (List ℕ) → Option (List ℕ)
unfolding text_eq
verify_parts env [] = none
verify_parts env (id ∷ []) = none
verify_parts env (id ∷ sig ∷ []) =
    let a = env.unhex sig in
    let b = env.unhex (env.sign_session_id id) in
    if not (length a == length b) then none else if not (text_eq a b) then none else some id
verify_parts env (id ∷ sig ∷ more ∷ parts) = none

unfoldable pub verify_session_cookie : SignEnv → List ℕ → Option (List ℕ)
unfolding verify_parts split_dots
verify_session_cookie env cookie = verify_parts env (split_dots cookie)

-- `${id}.${signSessionId(id)}`
abbrev pub cookie_of : SignEnv → List ℕ → List ℕ
cookie_of env id = id ++ dot ∷ env.sign_session_id id

abbrev pub new_session : List ℕ → ℕ → ℕ → ℕ → ℕ → ℕ → ℕ → Session
new_session id user org role secret now ttl_sec = record {
  id = id;
  user_id = user;
  org_id = org;
  role = role;
  csrf_secret = secret;
  expires_at = now + ttl_sec * 1000;
  revoked_at = none;
}

-- The row that it inserts, and the cookie; `id` and `secret` are fresh.
unfoldable pub create_session :
    SignEnv → List ℕ → ℕ → ℕ → ℕ → ℕ → ℕ → ℕ → List Session → List Session × List ℕ
create_session env id secret now user org role ttl_sec rows =
    (rows ++ new_session id user org role secret now ttl_sec ∷ [], cookie_of env id)

abbrev pub has_id : List ℕ → Session → Bool
has_id id s = text_eq s.id id

unfoldable pub get_session : ℕ → List ℕ → List Session → Option Session
get_session now id rows = elim (find (has_id id) rows) [
  | none ↦ none
  | some s ↦ if is_some s.revoked_at then none else if ltb s.expires_at now then none else some s
]

unfoldable pub revoke_session : ℕ → List ℕ → List Session → List Session
revoke_session now id = update (has_id id) (λ s. record s { revoked_at = some now })

-- ===== src/Sessions/Cookies.antt =====
-- src/auth/sessions.ts: from a cookie back to its session.
use openunion.Prelude.{
  ℕ, ◌≡◌, ◌≤◌, ◌+◌, ◌*◌, refl, ap, ◌∙◌, true, false, none, some, List, [], ◌∷◌, ◌++◌, ◌==◌, arith,
  All, ==_refl, length, Option-cases, inl, inr, sym,
}
use openunion.Prelude.Tables.{find, find-append, find-update, find_sound}
use openunion.Sessions.{
  Session, SignEnv, dot, split_dots, text_eq, verify_parts, verify_session_cookie, cookie_of,
  new_session, create_session, get_session, revoke_session, has_id,
}

-- A text without a dot.
abbrev pub IsPart : List ℕ → Type 0
IsPart s = All (λ c. (c == dot) ≡ false) s

split_part : (s : List ℕ) → IsPart s → split_dots s ≡ s ∷ []
unfolding split_dots
split_part [] h = refl
split_part (c ∷ s) h = ground (arith, h.0, split_part s h.1)

split-append : (s t : List ℕ) → IsPart s → split_dots (s ++ dot ∷ t) ≡ s ∷ split_dots t
unfolding split_dots
split-append [] t h = refl
split-append (c ∷ s) t h = ground (arith, h.0, split-append s t h.1)

text_eq_refl : (s : List ℕ) → text_eq s s ≡ true
unfolding text_eq
text_eq_refl [] = refl
text_eq_refl (c ∷ s) = ground (arith, ==_refl c, text_eq_refl s)

verified :
    (env : SignEnv) (id : List ℕ)
    → IsPart id
    → IsPart (env.sign_session_id id)
    → verify_session_cookie env (cookie_of env id) ≡ some id
unfolding verify_session_cookie verify_parts
verified env id part sig =
    let parts : split_dots (cookie_of env id) ≡ id ∷ env.sign_session_id id ∷ [] =
      split-append id (env.sign_session_id id) part ∙ ap (λ r. id ∷ r) (split_part _ sig) in
    let b = env.unhex (env.sign_session_id id) in
    rw parts (ground (arith, ==_refl (length b), text_eq_refl b))

revoked_none :
    (now at : ℕ) (id : List ℕ) (rows : List Session)
    → get_session now id (revoke_session at id rows) ≡ none
unfolding get_session revoke_session
revoked_none now at id rows =
    let moved =
      find-update (has_id id) (has_id id) (λ (s : Session). record s { revoked_at = some at }) rows
        (λ x. refl) in
    elim (Option-cases (find (has_id id) rows)) [
      | inl gone ↦ ground (arith, moved, gone)
      | inr (s, here) ↦ ground (arith, moved, here, find_sound (has_id id) rows s here)
    ]

parts_only :
    (env : SignEnv) (parts : List (List ℕ)) (id : List ℕ)
    → verify_parts env parts ≡ some id
    → (sig : List ℕ) × (parts ≡ id ∷ sig ∷ [])
      × (text_eq (env.unhex sig) (env.unhex (env.sign_session_id id)) ≡ true)
unfolding verify_parts
parts_only env [] id h = absurd (ground (arith, h))
parts_only env (a ∷ []) id h = absurd (ground (arith, h))
parts_only env (a ∷ sig ∷ []) id h =
    let same : a ≡ id = ground (arith, h) in
    (sig, ap (λ x. x ∷ sig ∷ []) same, rw (sym same) (ground (arith, h)))
parts_only env (a ∷ sig ∷ more ∷ parts) id h = absurd (ground (arith, h))

-- A cookie that verifies is an identifier, a dot and a text that decodes to the same bytes as the
-- identifier's signature, and it verifies to that identifier.
pub verified_only :
    (env : SignEnv) (cookie id : List ℕ)
    → verify_session_cookie env cookie ≡ some id
    → (sig : List ℕ) × (split_dots cookie ≡ id ∷ sig ∷ [])
      × (text_eq (env.unhex sig) (env.unhex (env.sign_session_id id)) ≡ true)
unfolding verify_session_cookie
verified_only env cookie id h = parts_only env (split_dots cookie) id h

found_row :
    (now : ℕ) (rows : List Session) (s : Session)
    → find (has_id s.id) rows ≡ none
    → s.revoked_at ≡ none
    → now ≤ s.expires_at
    → get_session now s.id (rows ++ s ∷ []) ≡ some s
unfolding get_session find
found_row now rows s new live early =
    let added = find-append (has_id s.id) rows (s ∷ []) in
    ground (arith, added, new, live, early, text_eq_refl s.id)

-- The cookie of a new session leads back to it: where neither its fresh identifier nor the signature
-- holds a dot, the cookie verifies to the identifier, which finds the session until its time is
-- over, and never again once the session is revoked.
pub session_found :
    (env : SignEnv) (id : List ℕ) (secret now later user org role ttl_sec revoked last : ℕ)
    (rows : List Session)
    → IsPart id
    → IsPart (env.sign_session_id id)
    → find (has_id id) rows ≡ none
    → later ≤ now + ttl_sec * 1000
    → let (rows', cookie) = create_session env id secret now user org role ttl_sec rows in
      (verify_session_cookie env cookie ≡ some id)
      × (get_session later id rows' ≡ some (new_session id user org role secret now ttl_sec))
      × (get_session last id (revoke_session revoked id rows') ≡ none)
unfolding create_session
session_found env id secret now later user org role ttl_sec revoked last rows part sig new early =
    let s = new_session id user org role secret now ttl_sec in
    (
      verified env id part sig,
      found_row later rows s new refl early,
      revoked_none last revoked id (rows ++ s ∷ []),
    )

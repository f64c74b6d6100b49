-- ===== src/BlockedDomains.antt =====
-- src/security/blockedDomains.ts: which hosts a blocked domain blocks. Hosts and domains are lists of
-- characters, already trimmed and in lower case; the URL parser is a parameter.
mod Examples
pub mod Suffix
use openunion.Prelude.{
  ℕ, Bool, true, false, Option, none, some, List, [], ◌∷◌, ◌++◌, ◌&&◌, ◌||◌, not, ltb, ◌==◌,
  if◌then◌else◌, length,
}
use openunion.Prelude.Result.{Result, ok, err}

abbrev pub percent : ℕ
percent = b'%'

abbrev pub underscore : ℕ
underscore = b'_'

abbrev pub dot : ℕ
dot = b'.'

-- A predicate on some end of the text.
pub any_tail : (List ℕ → Bool) → List ℕ → Bool
any_tail p [] = p []
any_tail p (c ∷ s) = p (c ∷ s) || any_tail p s

abbrev pub head_matches : ℕ → (List ℕ → Bool) → List ℕ → Bool
head_matches c rest [] = false
head_matches c rest (x ∷ s) = (c == underscore || c == x) && rest s

abbrev pub is_empty : List ℕ → Bool
is_empty [] = true
is_empty (c ∷ s) = false

-- SQL's `text LIKE pattern`: `%` is any text, `_` any one character. No host holds the escape.
pub like : List ℕ → List ℕ → Bool
unfolding any_tail
like [] s = is_empty s
like (c ∷ p) s = if c == percent then any_tail (like p) s else head_matches c (like p) s

pub text_eq : List ℕ → List ℕ → Bool
text_eq [] s = is_empty s
text_eq (c ∷ p) [] = false
text_eq (c ∷ p) (x ∷ s) = c == x && text_eq p s

-- `host = domain OR host LIKE '%.' || domain`
pub blocks : List ℕ → List ℕ → Bool
unfolding like text_eq
blocks host domain = text_eq host domain || like (percent ∷ dot ∷ domain) host

pub any_blocks : List ℕ → List (List ℕ) → Bool
unfolding blocks
any_blocks host [] = false
any_blocks host (d ∷ domains) = blocks host d || any_blocks host domains

unfoldable pub is_hostname_blocked : List ℕ → List (List ℕ) → Bool
unfolding any_blocks
is_hostname_blocked host domains = if is_empty host then false else any_blocks host domains

pub data DomainError : Type 0 where
  invalid_blocked_domain : DomainError

abbrev star : ℕ
star = b'*'

abbrev strip_star : List ℕ → List ℕ
strip_star (c ∷ d ∷ s) = if c == star && d == dot then s else c ∷ d ∷ s
strip_star s = s

abbrev strip_dot : List ℕ → List ℕ
strip_dot (c ∷ s) = if c == dot then s else c ∷ s
strip_dot [] = []

-- `s.replace(/\.$/, '')`
strip_last_dot : List ℕ → List ℕ
strip_last_dot [] = []
strip_last_dot (c ∷ s) =
    let rest = strip_last_dot s in if c == dot && is_empty s then [] else c ∷ rest

-- `hostname` is what the URL parser reads of the input, as it is or behind `https://`.
unfoldable pub normalize_blocked_domain_input :
    (List ℕ → Option (List ℕ)) → List ℕ → Result DomainError (List ℕ)
unfolding strip_last_dot
normalize_blocked_domain_input hostname input =
    if is_empty input then err invalid_blocked_domain else elim (hostname input) [
      | none ↦ err invalid_blocked_domain
      | some h ↦
          let s = strip_last_dot (strip_dot (strip_star h)) in
          if is_empty s || ltb 200 (length s) then err invalid_blocked_domain else ok s
    ]

-- ===== src/BlockedDomains/Suffix.antt =====
-- src/security/blockedDomains.ts: the hosts below a domain.
use openunion.Prelude.{
  ℕ, ◌≡◌, refl, Bool, true, false, List, [], ◌∷◌, ◌&&◌, ◌||◌, not, ◌==◌, arith, All,
}
use openunion.BlockedDomains.{
  underscore, percent, dot, like, any_tail, text_eq, blocks, is_empty, any_blocks,
  is_hostname_blocked,
}

-- No wildcard of LIKE.
abbrev pub is_plain : ℕ → Bool
is_plain c = not (c == percent) && not (c == underscore)

-- The text is an end of the host.
abbrev pub ends_with : List ℕ → List ℕ → Bool
ends_with [] p = text_eq p []
ends_with (c ∷ s) p = text_eq p (c ∷ s) || ends_with s p

like-plain : (p s : List ℕ) → All (λ c. is_plain c ≡ true) p → like p s ≡ text_eq p s
unfolding like text_eq
like-plain [] s h = refl
like-plain (c ∷ p) [] h = ground (arith, h.0)
like-plain (c ∷ p) (x ∷ s) h = ground (arith, h.0, like-plain p s h.1)

tail-plain : (p s : List ℕ) → All (λ c. is_plain c ≡ true) p → any_tail (like p) s ≡ ends_with s p
unfolding any_tail
tail-plain p [] h = like-plain p [] h
tail-plain p (x ∷ s) h = ground (arith, like-plain p (x ∷ s) h, tail-plain p s h)

-- The host is one of the domains, or lies below one.
abbrev pub is_below : List ℕ → List (List ℕ) → Bool
is_below host [] = false
is_below host (d ∷ domains) = text_eq host d || ends_with host (dot ∷ d) || is_below host domains

below :
    (host : List ℕ) (domains : List (List ℕ))
    → All (λ d. All (λ c. is_plain c ≡ true) d) domains
    → any_blocks host domains ≡ is_below host domains
unfolding any_blocks blocks like
below host [] plain = refl
below host (d ∷ domains) plain =
    ground (arith, tail-plain (dot ∷ d) host (refl, plain.0), below host domains plain.1)

-- Where no blocked domain holds `%` or `_`, a host is blocked exactly if it is a blocked domain or
-- ends with a dot and a blocked domain.
pub blocked_iff :
    (host : List ℕ) (domains : List (List ℕ))
    → is_empty host ≡ false
    → All (λ d. All (λ c. is_plain c ≡ true) d) domains
    → is_hostname_blocked host domains ≡ is_below host domains
unfolding is_hostname_blocked
blocked_iff host domains some_host plain = ground (arith, some_host, below host domains plain)

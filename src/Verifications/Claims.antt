-- ===== src/Verifications/Claims.antt =====
-- src/server.ts, POST /api/verifier/claim: who holds the claim of an attempt.
use openunion.Prelude.{ℕ, ◌≡◌, some}
use openunion.Rows.{Db, Verification, in_progress}
use openunion.Verifications.{find_verification}

-- The attempt is claimed with this token, until then.
abbrev pub HoldsClaim : ℕ → ℕ → ℕ → ℕ → Db → Type 0
HoldsClaim submission_id attempt_no token expires db =
    (v : Verification) × (find_verification submission_id attempt_no db ≡ some v)
    × (v.status ≡ in_progress)
    × (v.claim_token ≡ some token)
    × (v.claim_expires_at ≡ some expires)

-- ===== src/Mail/Started.antt =====
-- workers/emailWorker.js: when the worker runs, and which jobs then reach a mail server.
use patch_proof_api.Base.{◌≡◌, ◌↔◌, refl, sym, subst, Bool, true, false, arith}
use patch_proof_api.Startup.{production}
use patch_proof_api.Mail.{
  Env, mock, verified, unverified, Start, exits, running, is_configured, is_redis_safe, start,
}

-- What becomes of the start, by whether SMTP is configured and verifies, and whether the address of
-- Redis is safe.
abbrev table : Bool → Bool → Bool → Start
table true true true = running verified
table false v true = running mock
table true false s = exits
table true true false = exits
table false v false = exits

start-table :
    (e : Env)
    → e.node_env ≡ production
    → start e ≡ table (is_configured e) e.smtp_verifies (is_redis_safe e)
unfolding start
start-table e live = at (is_configured e) e.smtp_verifies (is_redis_safe e) refl refl refl
  where
    at :
        (c v s : Bool)
        → is_configured e ≡ c
        → e.smtp_verifies ≡ v
        → is_redis_safe e ≡ s
        → start e ≡ table c v s
    at true true true x y z = rw (live, x, y, z) refl
    at true true false x y z = rw (live, x, y, z) refl
    at true false true x y z = rw (live, x, y) refl
    at true false false x y z = rw (live, x, y) refl
    at false true true x y z = rw (live, x, z) refl
    at false true false x y z = rw (live, x, z) refl
    at false false true x y z = rw (live, x, z) refl
    at false false false x y z = rw (live, x, z) refl

-- In production the worker runs with a verified transport exactly if SMTP is configured and
-- verifies and the address of Redis is safe, and with none exactly if SMTP is not configured and
-- the address is safe; it never runs with a transport that was not verified.
production_start :
    (e : Env)
    → e.node_env ≡ production
    → ((start e ≡ running verified)
        ↔ ((is_configured e ≡ true) × (e.smtp_verifies ≡ true) × (is_redis_safe e ≡ true)))
      × ((start e ≡ running mock) ↔ ((is_configured e ≡ false) × (is_redis_safe e ≡ true)))
      × ((start e ≡ running unverified) ↔ ⊥)
production_start e live =
    subst
      (λ r.
        ((r ≡ running verified)
          ↔ ((is_configured e ≡ true) × (e.smtp_verifies ≡ true) × (is_redis_safe e ≡ true)))
        × ((r ≡ running mock) ↔ ((is_configured e ≡ false) × (is_redis_safe e ≡ true)))
        × ((r ≡ running unverified) ↔ ⊥))
      (sym (start-table e live)) (at (is_configured e) e.smtp_verifies (is_redis_safe e))
  where
    at :
        (c v s : Bool)
        → ((table c v s ≡ running verified) ↔ ((c ≡ true) × (v ≡ true) × (s ≡ true)))
          × ((table c v s ≡ running mock) ↔ ((c ≡ false) × (s ≡ true)))
          × ((table c v s ≡ running unverified) ↔ ⊥)
    at c v s = (
      ((λ h. (ground arith, ground arith, ground arith)), λ h. ground arith),
      ((λ h. (ground arith, ground arith)), λ h. ground arith),
      ((λ h. ground arith), λ h. absurd h),
    )

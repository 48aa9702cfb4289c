-- ===== src/Lock/Section.antt =====
-- services/lockManager.js: `withLock` and `withLockHeartbeat` around a critical section.
use patch_proof_api.Base.{ℕ, ◌≡◌, ◌≢◌, refl, sym, subst, ◌∙◌, true, none, some, arith, ==_self}
use patch_proof_api.Redis.{Redis}
use patch_proof_api.Lock.{
  connected, Attempt, of_attempt, acquire_lock, release_lock, with_lock, finish,
}

module _ (redis : Redis) where
  open redis use {State}

  release_own :
      (now name token : ℕ) (s : State)
      → redis.get now name s ≡ some token
      → release_lock redis connected now name token s ≡ (true, redis.del name s)
  unfolding release_lock
  release_own now name token s e = rw e (rw (==_self token))

  -- With the lease held until the end, `withLock` gives back what the section returned or threw,
  -- and on both paths the lease is free afterwards; the section's other writes stay.
  with_lock_releases :
      {A : Type 0} (now later name token ttl t other : ℕ) (fn : State → Attempt A × State)
      (s s' : State)
      → acquire_lock redis connected now name token ttl s ≡ (some token, s')
      → redis.get later name (fn s').1 ≡ some token
      → other ≢ name
      → let (r, s2) = with_lock redis connected connected now later name token ttl fn s in
        (r ≡ of_attempt (fn s').0)
        × (redis.get t name s2 ≡ none)
        × (redis.get t other s2 ≡ redis.get t other (fn s').1)
  unfolding with_lock
  with_lock_releases now later name token ttl t other fn s s' e held ne =
      subst
        (λ q.
          let (r, s2) = finish redis connected later name q.0 fn q.1 in
          (r ≡ of_attempt (fn s').0)
          × (redis.get t name s2 ≡ none)
          × (redis.get t other s2 ≡ redis.get t other (fn s').1))
        (sym e)
        (
          refl,
          rw (release_own later name token _ held)
              (redis.get_del name t name _ ∙ rw (==_self name)),
          rw (release_own later name token _ held) (redis.get_del name t other _ ∙ ground arith),
        )

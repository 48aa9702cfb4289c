-- ===== src/Lock.antt =====
-- services/lockManager.js: leases in Redis. The key `lock:` with a name stands for the name, and
-- the random token is an argument. A call may find the client not ready, or fail on the wire
-- before the server has seen the request or after; the methods catch the error.
pub mod Lease
pub mod Section
pub mod Tests
use patch_proof_api.Base.{
  ℕ, ◌/◌, Bool, true, false, List, [], ◌∷◌, Option, none, some, ◌==◌, if◌then◌else◌, min, max,
}
use patch_proof_api.Redis.{Redis}

pub data Link : Type 0 where
  connected not_ready lost_request lost_reply : Link

-- How a critical section ends.
pub data Attempt (A : Type 0) : Type 0 where
  returned : A → Attempt A
  thrown : ℕ → Attempt A

-- `{ ok, result }` or `{ ok: false, error }`
pub data LockResult (A : Type 0) : Type 0 where
  done : A → LockResult A
  not_acquired : LockResult A
  failed : ℕ → LockResult A

abbrev pub of_attempt : {A : Type 0} → Attempt A → LockResult A
of_attempt (returned a) = done a
of_attempt (thrown e) = failed e

-- `Math.max(2000, Math.min(20000, Math.floor(ttlMs / 3)))`
unfoldable pub heartbeat_interval : ℕ → ℕ
heartbeat_interval ttl = max 2000 (min 20000 (ttl / 3))

abbrev pub is_value : Option ℕ → ℕ → Bool
is_value none token = false
is_value (some v) token = v == token

module _ (redis : Redis) where
  open redis use {State}

  abbrev reply : {A : Type 0} → Link → A → A × State → State → A × State
  reply connected fallback r s = r
  reply not_ready fallback r s = (fallback, s)
  reply lost_request fallback r s = (fallback, s)
  reply lost_reply fallback r s = (fallback, r.1)

  -- The reply to SET with NX is OK or null.
  unfoldable pub acquire_lock : Link → ℕ → ℕ → ℕ → ℕ → State → Option ℕ × State
  acquire_lock link now name token ttl s =
      let (set, s') = redis.set_nx now name token ttl s in
      reply link none (if set then some token else none, s') s

  -- The Lua script: `if get == token then pexpire else 0`.
  unfoldable pub extend_lock : Link → ℕ → ℕ → ℕ → ℕ → State → Bool × State
  extend_lock link now name token ttl s =
      reply link false
        (if is_value (redis.get now name s) token
          then (true, redis.pexpire now name ttl s)
          else (false, s))
        s

  -- The Lua script: `if get == token then del else 0`.
  unfoldable pub release_lock : Link → ℕ → ℕ → ℕ → State → Bool × State
  release_lock link now name token s =
      reply link false
        (if is_value (redis.get now name s) token then (true, redis.del name s) else (false, s)) s

  -- The rest of `withLock` once the token is there: `finally` releases on every path.
  abbrev pub finish :
      {A : Type 0}
      → Link
      → ℕ
      → ℕ
      → Option ℕ
      → (State → Attempt A × State)
      → State
      → LockResult A × State
  finish link later name none fn s = (not_acquired, s)
  finish link later name (some token) fn s =
      let (r, s') = fn s in (of_attempt r, (release_lock link later name token s').1)

  -- `withLock`: the section acquires at one time and releases at a later one.
  unfoldable pub with_lock :
      {A : Type 0}
      → Link
      → Link
      → ℕ
      → ℕ
      → ℕ
      → ℕ
      → ℕ
      → (State → Attempt A × State)
      → State
      → LockResult A × State
  unfolding acquire_lock release_lock
  with_lock link link' now later name token ttl fn s =
      let (got, s') = acquire_lock link now name token ttl s in finish link' later name got fn s'

  -- One tick of the timer of `withLockHeartbeat`.
  unfoldable pub beat : Link → ℕ → ℕ → ℕ → ℕ → State → State
  unfolding extend_lock
  beat link now name token ttl s = (extend_lock link now name token ttl s).1

  -- The ticks, at the times of the list, while the section waits.
  unfoldable pub beats : List ℕ → ℕ → ℕ → ℕ → State → State
  unfolding beat
  beats [] name token ttl s = s
  beats (t ∷ ts) name token ttl s = beats ts name token ttl (beat connected t name token ttl s)

  -- `withLockHeartbeat`: the section runs in two parts with the ticks in between.
  unfoldable pub with_lock_heartbeat :
      {A : Type 0}
      → Link
      → Link
      → ℕ
      → List ℕ
      → ℕ
      → ℕ
      → ℕ
      → ℕ
      → (State → State)
      → (State → Attempt A × State)
      → State
      → LockResult A × State
  unfolding acquire_lock beats release_lock
  with_lock_heartbeat link link' now ticks later name token ttl before fn s =
      let (got, s') = acquire_lock link now name token ttl s in
      finish link' later name got (λ s1. fn (beats ticks name token ttl (before s1))) s'

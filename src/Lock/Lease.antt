-- ===== src/Lock/Lease.antt =====
-- services/lockManager.js: who holds a lease, and for how long.
use patch_proof_api.Base.{
  ℕ, ◌+◌, ◌≤◌, ◌<◌, ◌≡◌, ◌≢◌, refl, ap, zero, suc, ◌*◌, ◌∙◌, false, List, [], ◌∷◌, none, some,
  arith, inl, inr, Option-cases, ==_self, All,
}
use patch_proof_api.Redis.{Redis, until}
use patch_proof_api.Lock.{
  connected, acquire_lock, extend_lock, release_lock, beat, beats, heartbeat_interval,
}

-- The ticks come in time: each before the lease that the last one granted has expired.
abbrev pub IsTimely : ℕ → ℕ → List ℕ → Type 0
IsTimely from ttl [] = Unit
IsTimely from ttl (t ∷ ts) = (t < from + ttl) × IsTimely t ttl ts

abbrev pub last_tick : ℕ → List ℕ → ℕ
last_tick from [] = from
last_tick from (t ∷ ts) = last_tick t ts

-- The call of another client for the same lease, with its time, its token and its term.
pub data Rival : Type 0 where
  requests extends : ℕ → ℕ → ℕ → Rival
  releases : ℕ → ℕ → Rival

-- The call is made before a time, with another token if it needs one.
abbrev pub IsRival : ℕ → ℕ → Rival → Type 0
IsRival token expiry (requests t v ttl) = t < expiry
IsRival token expiry (extends t v ttl) = (t < expiry) × (token ≢ v)
IsRival token expiry (releases t v) = (t < expiry) × (token ≢ v)

module _ (redis : Redis) where
  open redis use {State}

  acquire_free :
      (now name token ttl : ℕ) (s : State)
      → redis.get now name s ≡ none
      → acquire_lock redis connected now name token ttl s
        ≡ (some token, redis.set now name token ttl s)
  unfolding acquire_lock
  acquire_free now name token ttl s free = rw (redis.set_nx_law, free)

  acquire_taken :
      (now name token ttl v : ℕ) (s : State)
      → redis.get now name s ≡ some v
      → acquire_lock redis connected now name token ttl s ≡ (none, s)
  unfolding acquire_lock
  acquire_taken now name token ttl v s taken = rw (redis.set_nx_law, taken)

  -- A lease that was granted was free, and is held until it expires.
  acquired :
      (now name token ttl t : ℕ) (s s' : State)
      → acquire_lock redis connected now name token ttl s ≡ (some token, s')
      → redis.get t name s' ≡ until (now + ttl) token t
  acquired now name token ttl t s s' e = elim (Option-cases (redis.get now name s)) [
    | inl free ↦
        let same : redis.set now name token ttl s ≡ s' =
          ground (arith, acquire_free now name token ttl s free) in
        rw (← same) (redis.get_set now name token ttl t name s ∙ ground arith)
    | inr (v, taken) ↦ absurd (ground (arith, acquire_taken now name token ttl v s taken))
  ]

  -- What a rival does to the state.
  unfoldable pub rival : ℕ → Rival → State → State
  rival name (requests t token ttl) s = (acquire_lock redis connected t name token ttl s).1
  rival name (releases t token) s = (release_lock redis connected t name token s).1
  rival name (extends t token ttl) s = (extend_lock redis connected t name token ttl s).1

  unfoldable pub rivals : ℕ → List Rival → State → State
  rivals name [] s = s
  rivals name (r ∷ rs) s = rivals name rs (rival name r s)

  granted_excludes :
      (now name token ttl later token' ttl' : ℕ) (s s' : State)
      → acquire_lock redis connected now name token ttl s ≡ (some token, s')
      → later < now + ttl
      → acquire_lock redis connected later name token' ttl' s' ≡ (none, s')
  granted_excludes now name token ttl later token' ttl' s s' e h =
      acquire_taken later name token' ttl' token s'
        (acquired now name token ttl later s s' e ∙ ground arith)

  -- A request after the expiry is granted.
  expired_is_free :
      (now name token ttl later token' ttl' : ℕ) (s s' : State)
      → acquire_lock redis connected now name token ttl s ≡ (some token, s')
      → now + ttl ≤ later
      → (acquire_lock redis connected later name token' ttl' s').0 ≡ some token'
  expired_is_free now name token ttl later token' ttl' s s' e h =
      let free : redis.get later name s' ≡ none =
        acquired now name token ttl later s s' e ∙ ground arith in
      rw (acquire_free later name token' ttl' s' free)

  release_foreign :
      (now name token v : ℕ) (s : State)
      → redis.get now name s ≡ some v
      → v ≢ token
      → release_lock redis connected now name token s ≡ (false, s)
  unfolding release_lock
  release_foreign now name token v s e ne = rw e (ground arith)

  extend_foreign :
      (now name token v ttl : ℕ) (s : State)
      → redis.get now name s ≡ some v
      → v ≢ token
      → extend_lock redis connected now name token ttl s ≡ (false, s)
  unfolding extend_lock
  extend_foreign now name token v ttl s e ne = rw e (ground arith)

  -- A client that no longer holds the lease cannot harm its successor: while a granted lease has
  -- not expired, releasing or extending it with another token reports failure and changes nothing.
  stale_holder_harmless :
      (now name token ttl t v ttl' : ℕ) (s s' : State)
      → token ≢ v
      → acquire_lock redis connected now name token ttl s ≡ (some token, s')
      → t < now + ttl
      → (release_lock redis connected t name v s' ≡ (false, s'))
        × (extend_lock redis connected t name v ttl' s' ≡ (false, s'))
  stale_holder_harmless now name token ttl t v ttl' s s' ne e h =
      let held : redis.get t name s' ≡ some token =
        acquired now name token ttl t s s' e ∙ ground arith in
      (release_foreign t name v token s' held ne, extend_foreign t name v token ttl' s' held ne)

  rival-refused :
      (now name token ttl : ℕ) (s s' : State)
      → acquire_lock redis connected now name token ttl s ≡ (some token, s')
      → (r : Rival) → IsRival token (now + ttl) r
      → rival name r s' ≡ s'
  unfolding rival
  rival-refused now name token ttl s s' e (requests t v ttl') h =
      ap (λ m. m.1) (granted_excludes now name token ttl t v ttl' s s' e h)
  rival-refused now name token ttl s s' e (releases t v) (h, ne) =
      ap (λ m. m.1) ((stale_holder_harmless now name token ttl t v 0 s s' ne e h).0)
  rival-refused now name token ttl s s' e (extends t v ttl') (h, ne) =
      ap (λ m. m.1) ((stale_holder_harmless now name token ttl t v ttl' s s' ne e h).1)

  rivals-refused :
      (now name token ttl : ℕ) (s s' : State)
      → acquire_lock redis connected now name token ttl s ≡ (some token, s')
      → (rs : List Rival) → All (IsRival token (now + ttl)) rs
      → rivals name rs s' ≡ s'
  unfolding rivals
  rivals-refused now name token ttl s s' e [] h = refl
  rivals-refused now name token ttl s s' e (r ∷ rs) h =
      ap (rivals name rs) (rival-refused now name token ttl s s' e r h.0)
      ∙ rivals-refused now name token ttl s s' e rs h.1

  -- Until a granted lease expires, no other client is granted it, whatever other clients have tried
  -- before: after any list of their requests for it, releases of it and extensions of it, all made
  -- before the expiry and the last two with other tokens, a request before the expiry is refused,
  -- and the state is the one that the grant left.
  pub lease_excludes :
      (now name token ttl later token' ttl' : ℕ) (s s' : State) (rs : List Rival)
      → acquire_lock redis connected now name token ttl s ≡ (some token, s')
      → All (IsRival token (now + ttl)) rs
      → later < now + ttl
      → acquire_lock redis connected later name token' ttl' (rivals name rs s') ≡ (none, s')
  lease_excludes now name token ttl later token' ttl' s s' rs e a h =
      rw (rivals-refused now name token ttl s s' e rs a)
        (granted_excludes now name token ttl later token' ttl' s s' e h)

  beat-get :
      (t name token ttl t' : ℕ) (s : State)
      → redis.get t name s ≡ some token
      → redis.get t' name (beat redis connected t name token ttl s) ≡ until (t + ttl) token t'
  unfolding beat
  beat-get t name token ttl t' s held =
      rw (held, beat, extend_lock)
        (rw (==_self token) (redis.get_pexpire t name ttl t' name token s held ∙ ground arith))

  beats-get :
      (from name token ttl t : ℕ) (ticks : List ℕ) (s : State)
      → ((t' : ℕ) → redis.get t' name s ≡ until (from + ttl) token t')
      → IsTimely from ttl ticks
      → redis.get t name (beats redis ticks name token ttl s)
        ≡ until (last_tick from ticks + ttl) token t
  unfolding beats
  beats-get from name token ttl t [] s held timely = held t
  beats-get from name token ttl t (x ∷ ts) s held timely =
      beats-get x name token ttl t ts _
        (λ t'. beat-get x name token ttl t' s (held x ∙ ground arith)) timely.1

  -- With ticks in time the heartbeat keeps the lease: it is held until a whole term after the last
  -- tick, and no longer.
  heartbeat_keeps :
      (now name token ttl t : ℕ) (ticks : List ℕ) (s s' : State)
      → acquire_lock redis connected now name token ttl s ≡ (some token, s')
      → IsTimely now ttl ticks
      → redis.get t name (beats redis ticks name token ttl s')
        ≡ until (last_tick now ticks + ttl) token t
  heartbeat_keeps now name token ttl t ticks s s' e timely =
      beats-get now name token ttl t ticks s' (λ t'. acquired now name token ttl t' s s' e) timely

-- The interval that the code chooses is shorter than any lease of more than two seconds.
heartbeat_interval-lt : (ttl : ℕ) → 2000 < ttl → heartbeat_interval ttl < ttl
unfolding heartbeat_interval
heartbeat_interval-lt ttl h = omega arith

-- `setInterval`: so many ticks, one in each interval.
abbrev pub periodic : ℕ → ℕ → ℕ → List ℕ
periodic zero from interval = []
periodic (suc n) from interval = (from + interval) ∷ periodic n (from + interval) interval

module _ (redis : Redis) where
  open redis use {State}

  periodic-IsTimely :
      (n from interval ttl : ℕ) → interval < ttl → IsTimely from ttl (periodic n from interval)
  periodic-IsTimely zero from interval ttl h = tt
  periodic-IsTimely (suc n) from interval ttl h =
      (omega arith, periodic-IsTimely n (from + interval) interval ttl h)

  last_tick-periodic :
      (n from interval : ℕ) → last_tick from (periodic n from interval) ≡ from + n * interval
  last_tick-periodic zero from interval = omega arith
  last_tick-periodic (suc n) from interval =
      omega (arith, last_tick-periodic n (from + interval) interval)

  -- The heartbeat keeps a lease of more than two seconds for as long as it ticks: after any number
  -- of ticks at the interval that the code chooses, the lease is held until a whole term after the
  -- last of them, and then it is gone.
  pub heartbeat_holds :
      (now name token ttl n t : ℕ) (s s' : State)
      → 2000 < ttl
      → acquire_lock redis connected now name token ttl s ≡ (some token, s')
      → redis.get t name (beats redis (periodic n now (heartbeat_interval ttl)) name token ttl s')
        ≡ until (now + n * heartbeat_interval ttl + ttl) token t
  heartbeat_holds now name token ttl n t s s' h e =
      heartbeat_keeps redis now name token ttl t (periodic n now (heartbeat_interval ttl)) s s' e
        (periodic-IsTimely n now (heartbeat_interval ttl) ttl (heartbeat_interval-lt ttl h))
      ∙ ap (λ k. until (k + ttl) token t) (last_tick-periodic n now (heartbeat_interval ttl))

-- ===== src/Redis.antt =====
-- Redis as services/lockManager.js and the two SVD caches use it: string values under keys that
-- expire. The server is not code of the repository; `Redis` is a parameter of the models, and its
-- laws are what the Redis manual says of GET, SET with NX and PX, PEXPIRE and DEL. Times are in
-- milliseconds, and a key that has reached its expiry time is gone.
use patch_proof_api.Base.{
  ℕ, ◌+◌, ◌≡◌, refl, Bool, true, false, Option, none, some, arith, ltb, ◌==◌, is_some,
  if◌then◌else◌,
}

-- A value that is seen until it expires.
abbrev pub until : ℕ → ℕ → ℕ → Option ℕ
until expiry value now = if ltb now expiry then some value else none

pub record Redis : Type 1 where
  pub State : Type 0
  pub get : ℕ → ℕ → State → Option ℕ
  -- `SET key value PX ttl`
  pub set : ℕ → ℕ → ℕ → ℕ → State → State
  pub get_set :
      (now key value ttl now' key' : ℕ) (s : State)
      → get now' key' (set now key value ttl s)
        ≡ (if key' == key then until (now + ttl) value now' else get now' key' s)
  -- `SET key value PX ttl NX`: whether the reply is OK, and the state
  pub set_nx : ℕ → ℕ → ℕ → ℕ → State → Bool × State
  pub set_nx_law :
      (now key value ttl : ℕ) (s : State)
      → set_nx now key value ttl s
        ≡ (if is_some (get now key s) then (false, s) else (true, set now key value ttl s))
  -- `PEXPIRE key ttl` at a key that is there
  pub pexpire : ℕ → ℕ → ℕ → State → State
  pub get_pexpire :
      (now key ttl now' key' value : ℕ) (s : State)
      → get now key s ≡ some value
      → get now' key' (pexpire now key ttl s)
        ≡ (if key' == key then until (now + ttl) value now' else get now' key' s)
  pub del : ℕ → State → State
  pub get_del :
      (key now' key' : ℕ) (s : State)
      → get now' key' (del key s) ≡ (if key' == key then none else get now' key' s)

-- A server that meets the laws: every key has its value and its expiry time.
abbrev pub Table : Type 0
Table = ℕ → Option (ℕ × ℕ)

abbrev look : ℕ → Option (ℕ × ℕ) → Option ℕ
look now none = none
look now (some (v, e)) = until e v now

abbrev put : ℕ → Option (ℕ × ℕ) → Table → Table
put key e s k = if k == key then e else s k

abbrev prolong : ℕ → Option (ℕ × ℕ) → Option (ℕ × ℕ)
prolong e none = none
prolong e (some (v, _)) = some (v, e)

abbrev set_table : ℕ → ℕ → ℕ → ℕ → Table → Table
set_table now key value ttl s = put key (some (value, now + ttl)) s

pub put-look :
    (now key value ttl now' key' : ℕ) (s : Table)
    → look now' (set_table now key value ttl s key')
      ≡ (if key' == key then until (now + ttl) value now' else look now' (s key'))
put-look now key value ttl now' key' s = ground arith

prolong-look :
    (now now' value e : ℕ) (o : Option (ℕ × ℕ))
    → look now o ≡ some value
    → look now' (prolong e o) ≡ until e value now'
prolong-look now now' value e none h = absurd (cc)
prolong-look now now' value e (some (v, x)) h = ground arith

pub pexpire-look :
    (now key ttl now' key' value : ℕ) (s : Table)
    → look now (s key) ≡ some value
    → look now' (put key (prolong (now + ttl) (s key)) s key')
      ≡ (if key' == key then until (now + ttl) value now' else look now' (s key'))
pexpire-look now key ttl now' key' value s h =
    ground (arith, prolong-look now now' value (now + ttl) (s key) h)

pub del-look :
    (key now' key' : ℕ) (s : Table)
    → look now' (put key none s key') ≡ (if key' == key then none else look now' (s key'))
del-look key now' key' s = ground arith

abbrev pub table : Redis
table = record {
  State = Table;
  get = λ now key s. look now (s key);
  set = set_table;
  get_set = put-look;
  set_nx = λ now key value ttl s.
      if is_some (look now (s key)) then (false, s) else (true, set_table now key value ttl s);
  set_nx_law = λ now key value ttl s. refl;
  pexpire = λ now key ttl s. put key (prolong (now + ttl) (s key)) s;
  get_pexpire = pexpire-look;
  del = λ key s. put key none s;
  get_del = del-look;
}

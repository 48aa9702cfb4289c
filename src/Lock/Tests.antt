-- ===== src/Lock/Tests.antt =====
-- Runs of services/lockManager.js on a table of keys, and the theorems at these.
use patch_proof_api.Base.{ℕ, ◌+◌, ◌*◌, ◌≡◌, refl, List, [], ◌∷◌, none, some, arith}
use patch_proof_api.Redis.{table, until, Table}
use patch_proof_api.Lock.{connected, acquire_lock, beats, heartbeat_interval, Attempt, thrown}
use patch_proof_api.Lock.Lease.{
  Rival, requests, releases, rivals, lease_excludes, heartbeat_holds, periodic,
}

abbrev empty : Table
empty k = none

abbrev leased : Table
leased = (acquire_lock table connected 100 1 77 3000 empty).1

grant : acquire_lock table connected 100 1 77 3000 empty ≡ (some 77, leased)
unfolding acquire_lock
grant = refl

-- Another client asks for the lease, and one that has lost it releases it.
abbrev others : List Rival
others = requests 900 88 3000 ∷ releases 1000 66 ∷ []

lease_excludes_example :
    acquire_lock table connected 2000 1 88 3000 (rivals table 1 others leased) ≡ (none, leased)
lease_excludes_example =
    lease_excludes table 100 1 77 3000 2000 88 3000 empty leased others grant
      (omega arith, ((omega arith, λ h. absurd (omega arith)), tt)) (omega arith)

heartbeat_holds_example :
    table.get 7000 1 (beats table (periodic 3 100 (heartbeat_interval 3000)) 1 77 3000 leased)
    ≡ until (100 + 3 * heartbeat_interval 3000 + 3000) 77 7000
heartbeat_holds_example =
    heartbeat_holds table 100 1 77 3000 3 7000 empty leased (omega arith) grant

-- A section that throws, and writes another key first.
abbrev section : Table → Attempt ℕ × Table
section s = (thrown 5, table.set 150 2 9 5000 s)

held : table.get 200 1 (section leased).1 ≡ some 77
unfolding acquire_lock
held = refl

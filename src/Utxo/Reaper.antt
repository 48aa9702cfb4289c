-- ===== src/Utxo/Reaper.antt =====
-- The two ways in which stale locks are undone, when the output is spent in the meantime:
-- `unlockOrphanedLocked` of services/utxoService.js and scripts/revert-stale-locks.js.
use patch_proof_api.Base.{ℕ, ◌≡◌, refl, ◌∙◌, true, false, List, [], ◌∷◌, map, some, arith}
use patch_proof_api.Mongo.{Collection, first}
use patch_proof_api.Mongo.Laws.{
  first-modify_first_kept, first-modify_first_self, first-modify_all, first-passes,
}
use patch_proof_api.Utxo.{
  Utxo, available, spent, Outpoint, outpoint, is_at, is_among, is_locked, set_status, spend_utxo,
  find_orphaned, release_orphaned, revert_each,
}

is_among-at :
    (os : List Outpoint) (u d : Utxo) → is_at (outpoint u) d ≡ true → is_among os d ≡ is_among os u
is_among-at [] u d e = refl
is_among-at (o ∷ os) u d e = ground (arith, is_among-at os u d e)

module _ (c : Collection Utxo) where
  release_orphaned-first :
      (now : ℕ) (stale : List Utxo) (u d : Utxo) (us : List Utxo)
      → is_among (map outpoint stale) u ≡ true
      → first (is_at (outpoint u)) us ≡ some d
      → first (is_at (outpoint u)) (release_orphaned c now stale us)
        ≡ some (set_status now available d)
  unfolding release_orphaned
  release_orphaned-first now [] u d us m e = absurd (cc)
  release_orphaned-first now (x ∷ r) u d us m e =
      let among : is_among (map outpoint (x ∷ r)) d ≡ true =
        is_among-at (map outpoint (x ∷ r)) u d (first-passes _ us d e) ∙ m in
      rw (c.update_many_law) (
        first-modify_all _ (is_among (map outpoint (x ∷ r))) (set_status now available) us
          (λ _. refl)
        ∙ rw (e, among))

  spend_utxo-first :
      (now : ℕ) (u d : Utxo) (us : List Utxo)
      → first (is_at (outpoint u)) us ≡ some d
      → first (is_at (outpoint u)) (spend_utxo c now (some u) us) ≡ some (set_status now spent d)
  unfolding spend_utxo
  spend_utxo-first now u d us e =
      rw (c.update_one_law) (first-modify_first_self _ (set_status now spent) us (λ _ h. h) ∙ rw e)

  -- The reaper tests the age of a lock when it searches, and nothing when it updates: a stale
  -- output that is spent between the two calls is available again afterwards.
  pub reaper_frees_spent :
      (now t later minutes limit : ℕ) (u d : Utxo) (us : List Utxo)
      → first (is_at (outpoint u)) us ≡ some d
      → is_among (map outpoint (find_orphaned c now minutes limit us)) u ≡ true
      → (first (is_at (outpoint u)) (spend_utxo c t (some u) us) ≡ some (set_status t spent d))
        × (first (is_at (outpoint u)) (
              release_orphaned c later
                (find_orphaned c now minutes limit us)
                (spend_utxo c t (some u) us))
            ≡ some (set_status later available d))
  reaper_frees_spent now t later minutes limit u d us e m = (
    spend_utxo-first t u d us e,
    release_orphaned-first later (find_orphaned c now minutes limit us) u (set_status t spent d) _ m
        (spend_utxo-first t u d us e),
  )

  -- The script tests the status again at each update: whatever it found before, an output that is
  -- not locked when it writes, such as one spent in the meantime, stays as it is.
  revert_keeps_unlocked :
      (now : ℕ) (stale : List Utxo) (o : Outpoint) (d : Utxo) (us : List Utxo)
      → first (is_at o) us ≡ some d
      → is_locked d.status ≡ false
      → first (is_at o) (revert_each c now stale us) ≡ some d
  unfolding revert_each
  revert_keeps_unlocked now [] o d us e n = e
  revert_keeps_unlocked now (u ∷ r) o d us e n =
      revert_keeps_unlocked now r o d _
        (rw (c.update_one_law) (first-modify_first_kept _ _ _ us d (λ _. refl) (ground arith) e)) n

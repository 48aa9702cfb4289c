-- ===== src/Utxo.antt =====
-- models/Utxo.js and services/utxoService.js, and scripts/revert-stale-locks.js: the pool of
-- unspent outputs. The unique index on `(txid, vout)` makes the outpoint the key of a document, and
-- it stands for the `_id` by which the service names documents.
pub mod Select
pub mod Reaper
pub mod Tests
use patch_proof_api.Base.{
  ℕ, ◌-◌, ◌*◌, Bool, true, false, ◌&&◌, ◌||◌, List, [], ◌∷◌, map, Option, none, some, ◌==◌, ltb,
  leb, length, if◌then◌else◌,
}
use patch_proof_api.Mongo.{Collection}

pub data Status : Type 0 where
  unconfirmed available locked spent : Status

pub record Utxo : Type 0 where
  pub txid : ℕ
  pub vout : ℕ
  pub satoshis : ℕ
  pub script_pubkey : ℕ
  pub key_identifier : ℕ
  pub status : Status
  pub lock_id : Option ℕ
  pub updated_at : ℕ

abbrev pub Outpoint : Type 0
Outpoint = ℕ × ℕ

abbrev pub outpoint : Utxo → Outpoint
outpoint u = (u.txid, u.vout)

abbrev pub is_at : Outpoint → Utxo → Bool
is_at (t, v) u = u.txid == t && u.vout == v

-- `ids.includes(u._id)`
abbrev pub is_among : List Outpoint → Utxo → Bool
is_among [] u = false
is_among (o ∷ os) u = is_at o u || is_among os u

abbrev pub is_available : Status → Bool
is_available available = true
is_available _ = false

abbrev pub is_unconfirmed : Status → Bool
is_unconfirmed unconfirmed = true
is_unconfirmed _ = false

abbrev pub is_locked : Status → Bool
is_locked locked = true
is_locked _ = false

abbrev pub is_spent : Status → Bool
is_spent spent = true
is_spent _ = false

-- `$set: { status, updated_at: new Date() }`
abbrev pub set_status : ℕ → Status → Utxo → Utxo
set_status now st u = record u { status = st; updated_at = now }

-- The fields that a caller of `addUtxo` gives.
pub record UtxoData : Type 0 where
  pub txid : ℕ
  pub vout : ℕ
  pub satoshis : ℕ
  pub script_pubkey : ℕ
  pub key_identifier : ℕ
  pub status : Status

abbrev pub of_data : ℕ → Option ℕ → UtxoData → Utxo
of_data now lock d = record {
  txid = d.txid;
  vout = d.vout;
  satoshis = d.satoshis;
  script_pubkey = d.script_pubkey;
  key_identifier = d.key_identifier;
  status = d.status;
  lock_id = lock;
  updated_at = now;
}

-- What `selectAndLockUtxo` looks for.
abbrev pub is_candidate : ℕ → ℕ → Utxo → Bool
is_candidate key amount u =
    u.key_identifier == key && (is_available u.status && leb amount u.satoshis)

-- `olderThanMinutes` before now, in milliseconds
abbrev pub cutoff : ℕ → ℕ → ℕ
cutoff now minutes = now - minutes * 60 * 1000

abbrev pub is_stale : ℕ → Utxo → Bool
is_stale t u = is_locked u.status && ltb u.updated_at t

module _ (c : Collection Utxo) where
  unfoldable pub select_and_lock_utxo : ℕ → ℕ → ℕ → List Utxo → Option Utxo × List Utxo
  select_and_lock_utxo now key amount =
      c.find_one_and_update (is_candidate key amount) (λ u. u.satoshis) (set_status now locked)

  -- An upsert by outpoint: every given field is overwritten, the status too.
  unfoldable pub add_utxo : ℕ → UtxoData → List Utxo → List Utxo
  add_utxo now d =
      c.upsert (is_at (d.txid, d.vout)) (λ u. of_data now u.lock_id d) (of_data now none d)

  unfoldable pub spend_utxos : ℕ → List Utxo → List Utxo → List Utxo
  spend_utxos now [] us = us
  spend_utxos now (u ∷ r) us =
      c.update_many (is_among (map outpoint (u ∷ r))) (set_status now spent) us

  unfoldable pub unlock_utxos : ℕ → List Utxo → List Utxo → List Utxo
  unlock_utxos now [] us = us
  unlock_utxos now (u ∷ r) us =
      c.update_many (λ e. is_among (map outpoint (u ∷ r)) e && is_locked e.status)
        (set_status now available) us

  unfoldable pub spend_utxo : ℕ → Option Utxo → List Utxo → List Utxo
  spend_utxo now none us = us
  spend_utxo now (some u) us = c.update_one (is_at (outpoint u)) (set_status now spent) us

  unfoldable pub unlock_utxo : ℕ → Option Utxo → List Utxo → List Utxo
  unlock_utxo now none us = us
  unlock_utxo now (some u) us =
      c.update_one (λ e. is_at (outpoint u) e && is_locked e.status) (set_status now available) us

  -- `unlockOrphanedLocked` is two calls of the database: the search for stale locks, and the
  -- update of what it found. Other clients run in between.
  unfoldable pub find_orphaned : ℕ → ℕ → ℕ → List Utxo → List Utxo
  find_orphaned now minutes limit = c.find (is_stale (cutoff now minutes)) limit

  unfoldable pub release_orphaned : ℕ → List Utxo → List Utxo → List Utxo
  release_orphaned now [] us = us
  release_orphaned now (u ∷ r) us =
      c.update_many (is_among (map outpoint (u ∷ r))) (set_status now available) us

  -- Both, with nothing in between; the counts are those of the documents matched.
  unfoldable pub unlock_orphaned_locked : ℕ → ℕ → ℕ → List Utxo → ℕ × List Utxo
  unfolding find_orphaned release_orphaned
  unlock_orphaned_locked now minutes limit us =
      let stale = find_orphaned now minutes limit us in
      (length stale, release_orphaned now stale us)

  unfoldable pub get_pool_count : ℕ → List Utxo → ℕ
  get_pool_count key = c.count (λ u. u.key_identifier == key && is_available u.status)

  unfoldable pub find_dust : ℕ → ℕ → ℕ → List Utxo → List Utxo
  find_dust key threshold limit =
      c.find (λ u. u.key_identifier == key && (is_available u.status && ltb u.satoshis threshold))
        limit

  -- scripts/revert-stale-locks.js, which tests the status again for each document.
  unfoldable pub revert_each : ℕ → List Utxo → List Utxo → List Utxo
  revert_each now [] us = us
  revert_each now (u ∷ r) us = revert_each now r (
      c.update_one (λ e. is_at (outpoint u) e && is_locked e.status)
        (λ e. record e { status = available; lock_id = none }) us)

  unfoldable pub revert_stale_locks : Bool → ℕ → ℕ → ℕ → List Utxo → List Utxo
  unfolding find_orphaned revert_each
  revert_stale_locks dry_run now minutes limit us =
      if dry_run then us else revert_each now (find_orphaned now minutes limit us) us

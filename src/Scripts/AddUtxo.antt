-- ===== src/Scripts/AddUtxo.antt =====
-- scripts/addUtxo.js: an output is added to the pool, after a check against the chain.
use patch_proof_api.Base.{
  ℕ, Bool, true, false, ◌&&◌, ◌||◌, not, List, Option, none, some, ◌==◌, if◌then◌else◌,
}
use patch_proof_api.Mongo.{Collection, first}
use patch_proof_api.Retry.{Unspent}
use patch_proof_api.Utxo.{Utxo, available, spent, is_at, is_available, set_status}

-- The options of the command line.
pub record Args : Type 0 where
  pub txid : ℕ
  pub vout : ℕ
  pub satoshis : ℕ
  pub key_id : ℕ
  pub address : Option ℕ
  pub script : Option ℕ
  pub force : Bool
  pub exclusive : Bool
  pub confirm : Bool

-- What the services answer, `none` where the call throws: whether the client starts, whether the
-- output is spent, the address of a script, the outputs of an address, and the script of one.
pub record World : Type 0 where
  pub client_starts : Bool
  pub is_utxo_spent : Option Bool
  pub to_address : ℕ → Option ℕ
  pub unspent_of : ℕ → Option (List Unspent)
  pub script_of : ℕ → Option ℕ

-- Where the checks end: with an exit code, or with whether the output was verified, and its script.
pub data Checked : Type 0 where
  exits : ℕ → Checked
  passes : Bool → Option ℕ → Checked

abbrev pub is_listed : Args → Unspent → Bool
is_listed a u = u.tx_hash == a.txid && u.tx_pos == a.vout

abbrev pub or_script : Option ℕ → Option ℕ → Option ℕ
or_script none s = s
or_script (some x) s = some x

module _ (a : Args) (w : World) where
  -- `if (!argv.force) process.exit(code)`, and what happens with `--force`.
  abbrev pub unless_forced : ℕ → Checked → Checked
  unless_forced code rest = if not a.force then exits code else rest

  abbrev pub matched : ℕ → Option Unspent → Checked
  matched addr none = unless_forced 4 (passes false a.script)
  matched addr (some u) =
      if u.value == a.satoshis
      then passes true (or_script a.script (w.script_of addr))
      else unless_forced 5 (passes true (or_script a.script (w.script_of addr)))

  abbrev pub listed : ℕ → Option (List Unspent) → Checked
  listed addr none = unless_forced 7 (passes false a.script)
  listed addr (some us) = matched addr (first (is_listed a) us)

  abbrev pub addressed : Option ℕ → Checked
  addressed none = unless_forced 6 (passes false a.script)
  addressed (some addr) = listed addr (w.unspent_of addr)

  -- The address that was given, or that of the script.
  abbrev pub derived_address : Option ℕ → Option ℕ → Option ℕ
  derived_address (some addr) script = some addr
  derived_address none (some script) = w.to_address script
  derived_address none none = none

  abbrev pub unless_spent : Option Bool → Checked
  unless_spent none = exits 3
  unless_spent (some true) = exits 2
  unless_spent (some false) = addressed (derived_address a.address a.script)

  unfoldable pub check : Checked
  check =
      if a.exclusive && not a.confirm
      then exits 1
      else if not w.client_starts
      then exits 2
      else unless_spent w.is_utxo_spent

  -- What `addUtxo` writes to a document that is there: no status, and no script where it is not
  -- known.
  abbrev pub overwrite : ℕ → Option ℕ → Utxo → Utxo
  overwrite now none u = record u {
    satoshis = a.satoshis;
    key_identifier = a.key_id;
    updated_at = now;
  }
  overwrite now (some script) u = record u {
    satoshis = a.satoshis;
    script_pubkey = script;
    key_identifier = a.key_id;
    updated_at = now;
  }

  -- The document that is inserted otherwise; 0 stands for a script that is missing.
  abbrev pub inserted : ℕ → Option ℕ → Utxo
  inserted now script = record {
    txid = a.txid;
    vout = a.vout;
    satoshis = a.satoshis;
    script_pubkey = elim script as (λ o. ℕ) [ none ↦ 0 | some s ↦ s ];
    key_identifier = a.key_id;
    status = available;
    lock_id = none;
    updated_at = now;
  }

  module _ (c : Collection Utxo) where
    -- The update of the exclusive mode: every other available output is marked as spent.
    abbrev pub mark_others : ℕ → List Utxo → List Utxo
    mark_others now us =
        if a.exclusive
        then c.update_many
            (λ u. is_available u.status && (not (u.txid == a.txid) || not (u.vout == a.vout)))
            (set_status now spent) us
        else us

    abbrev pub add : ℕ → Option ℕ → List Utxo → List Utxo
    add now script us =
        c.upsert (is_at (a.txid, a.vout)) (overwrite now script) (inserted now script)
          (mark_others now us)

    abbrev pub finish : ℕ → Checked → List Utxo → Checked × List Utxo
    finish now (exits code) us = (exits code, us)
    finish now (passes verified script) us = (passes verified script, add now script us)

    -- `main`
    unfoldable pub add_utxo_script : ℕ → List Utxo → Checked × List Utxo
    unfolding check
    add_utxo_script now us = finish now check us

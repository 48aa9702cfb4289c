-- ===== src/Manager/Split.antt =====
-- services/utxoManagerService.js: `splitIfNeeded` stays within the pool's target and its input.
use patch_proof_api.Base.{
  ℕ, ◌+◌, ◌*◌, ◌≤◌, ◌<◌, ◌≡◌, ◌≢◌, zero, suc, refl, sym, ap, subst, ◌∙◌, Bool, true, false, List,
  [], ◌∷◌, ◌++◌, map, length, All, Option, none, some, arith, leb, Bool-cases, inl, inr,
}
use patch_proof_api.Mongo.{Collection, Picks}
use patch_proof_api.Transactions.{Input, Output, data_out, pays, Transaction}
use patch_proof_api.Utxo.{Utxo, available, locked, set_status, get_pool_count}
use patch_proof_api.Manager.{
  Config, pool_healthy, lease_held, split_done, deficit, required, is_splittable, split_outputs,
  split_tx, finish_split, split_selected, split_if_needed,
}

-- The output that an input spends, and what it holds.
abbrev pub input_spends : Input → ℕ × ℕ × ℕ
input_spends i = (i.txid, i.vout, i.satoshis)

-- What outputs pay together.
abbrev pub paid : List Output → ℕ
paid [] = 0
paid (data_out d ∷ os) = paid os
paid (pays address amount ∷ os) = amount + paid os

length-split_outputs : (n address size : ℕ) → length (split_outputs n address size) ≡ n
unfolding split_outputs
length-split_outputs zero address size = refl
length-split_outputs (suc n) address size = ap suc (length-split_outputs n address size)

paid-split_outputs : (n address size : ℕ) → paid (split_outputs n address size) ≡ size * n
unfolding split_outputs
paid-split_outputs zero address size = omega arith
paid-split_outputs (suc n) address size = omega (arith, paid-split_outputs n address size)

split_outputs-All :
    (n address size : ℕ) → All (λ o. o ≡ pays address size) (split_outputs n address size)
unfolding split_outputs
split_outputs-All zero address size = tt
split_outputs-All (suc n) address size = (refl, split_outputs-All n address size)

module _ (c : Collection Utxo) where
  -- The transaction of a split: its one input was an available output of the funding key in the
  -- pool, and its written outputs are so many of the split size, to the funding address, which with
  -- the buffer for the fee the input covers.
  abbrev pub Funded : Config → (Transaction → Option ℕ) → ℕ → ℕ → List Utxo → Type 0
  Funded cfg send txid n us =
      (xs : List Utxo) × (u : Utxo) × (ys : List Utxo) × (us ≡ xs ++ u ∷ ys)
      × (u.status ≡ available)
      × (u.key_identifier ≡ cfg.funding_key)
      × ((tx : Transaction) × (send tx ≡ some txid)
          × (map input_spends tx.inputs ≡ (u.txid, u.vout, u.satoshis) ∷ [])
          × (length tx.outputs ≡ n)
          × All (λ o. o ≡ pays cfg.funding_address cfg.split_size) tx.outputs
          × (paid tx.outputs + 5000 ≤ u.satoshis))

  selected-Funded :
      (cfg : Config) (n now txid k : ℕ) (us us' : List Utxo) (o : Option Utxo)
      (send : Transaction → Option ℕ) (dry : Bool)
      → Picks
          (is_splittable cfg.funding_key (required cfg n))
          (λ u. u.satoshis)
          (set_status now locked)
          us
          o
          us'
      → (split_selected c cfg dry now n (required cfg n) send (o, us')).0 ≡ split_done txid k
      → (k ≡ n) × Funded cfg send txid n us
  selected-Funded cfg n now txid k us us' none send dry p h = absurd (cc)
  selected-Funded cfg n now txid k us us' (some u) send dry (inl (a, e, same)) h = absurd (cc)
  selected-Funded cfg n now txid k us us' (some u) send true p h = absurd (cc)
  selected-Funded cfg n now txid k us us' (some u) send false (inr (xs, d, ys, e, pass, a, r, e'))
        h =
      let (same, sent) = finished (send (split_tx cfg n u)) h in
      let got : set_status now locked d ≡ u = ground arith in
      (
        same,
        (
          xs,
          d,
          ys,
          e,
          ground arith,
          ground arith,
          (
            split_tx cfg n u,
            sent,
            ap spends_one (sym got),
            length-split_outputs n cfg.funding_address cfg.split_size,
            split_outputs-All n cfg.funding_address cfg.split_size,
            covered d pass,
          ),
        ),
      )
    where
      spends_one : Utxo → List (ℕ × ℕ × ℕ)
      spends_one x = (x.txid, x.vout, x.satoshis) ∷ []

      finished :
          (o : Option ℕ)
          → (finish_split c false now n o u us').0 ≡ split_done txid k
          → (k ≡ n) × (o ≡ some txid)
      finished none h = absurd (cc)
      finished (some t) h = (cc, cc)

      covered :
          (d : Utxo)
          → is_splittable cfg.funding_key (required cfg n) d ≡ true
          → paid (split_outputs n cfg.funding_address cfg.split_size) + 5000 ≤ d.satoshis
      covered d pass = rw (paid-split_outputs n cfg.funding_address cfg.split_size) (ground arith)

  -- A split that reports a transaction has sent it with exactly as many written outputs as it
  -- reports, each of the split size and to the funding address, no more than are missing to
  -- `MIN_UTXO_COUNT` and than `MAX_SPLIT_OUTPUTS` allows, and at least one when the latter is not
  -- 0; its one input was an available output of the funding key in the pool, which covers these
  -- outputs and 5000 satoshis for the fee.
  pub split-Funded :
      (cfg : Config) (dry is_leased : Bool) (now txid n : ℕ) (send : Transaction → Option ℕ)
      (us : List Utxo)
      → (split_if_needed c cfg dry now is_leased send us).0 ≡ split_done txid n
      → let pool = get_pool_count c cfg.funding_key us in
        (pool + n ≤ cfg.min_utxo_count)
        × (n ≤ cfg.max_split_outputs)
        × (cfg.max_split_outputs ≢ 0 → 0 < n)
        × Funded cfg send txid n us
  unfolding split_if_needed
  split-Funded cfg dry is_leased now txid n send us h =
      elim (Bool-cases (leb cfg.min_utxo_count (get_pool_count c cfg.funding_key us))) [
        | inl full ↦
            absurd (full-done {m = get_pool_count c cfg.funding_key us} (sym (rw full refl) ∙ h))
        | inr low ↦ elim (Bool-cases is_leased) [
          | inr off ↦
              absurd
                (held-done {m = get_pool_count c cfg.funding_key us} (sym (rw (low, off) refl) ∙ h))
          | inl on ↦
              let pool = get_pool_count c cfg.funding_key us in
              let k = deficit cfg pool in
              let (same, funded) =
                selected-Funded cfg k now txid n us _ _ send dry
                  (c.find_one_and_update_law (is_splittable cfg.funding_key (required cfg k))
                    (λ u. u.satoshis) (set_status now locked) us)
                  (sym (rw (low, on) refl) ∙ h) in
              subst
                (λ m.
                  (pool + m ≤ cfg.min_utxo_count)
                  × (m ≤ cfg.max_split_outputs)
                  × (cfg.max_split_outputs ≢ 0 → 0 < m)
                  × Funded cfg send txid m us)
                (sym same) (bounded pool low, bounded_max pool, positive pool low, funded)
        ]
      ]
    where
      full-done : {m : ℕ} → pool_healthy m ≢ split_done txid n
      full-done e = absurd (cc)

      held-done : {m : ℕ} → lease_held m ≢ split_done txid n
      held-done e = absurd (cc)

      bounded :
          (pool : ℕ)
          → leb cfg.min_utxo_count pool ≡ false
          → pool + deficit cfg pool ≤ cfg.min_utxo_count
      bounded pool h = ground arith

      bounded_max : (pool : ℕ) → deficit cfg pool ≤ cfg.max_split_outputs
      bounded_max pool = ground arith

      positive :
          (pool : ℕ)
          → leb cfg.min_utxo_count pool ≡ false
          → cfg.max_split_outputs ≢ 0
          → 0 < deficit cfg pool
      positive pool h ne = ground arith

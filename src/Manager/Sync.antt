-- ===== src/Manager/Sync.antt =====
-- services/utxoManagerService.js: `syncUtxos` brings the pool in line with the chain.
use patch_proof_api.Base.{
  ℕ, ◌≡◌, ◌≢◌, ◌⊎◌, refl, sym, subst, Bool, true, false, ◌&&◌, not, List, [], ◌∷◌, map, none,
  ==_self, All, All-mono, keep, Bool-cases, inl, inr,
}
use patch_proof_api.Mongo.{Collection}
use patch_proof_api.Mongo.Laws.{All-upsert, All-modify_all}
use patch_proof_api.Retry.{Unspent}
use patch_proof_api.Utxo.{
  Utxo, available, spent, outpoint, is_at, is_among, is_available, is_unconfirmed, set_status,
  of_data, add_utxo, spend_utxos,
}
use patch_proof_api.Manager.{
  Config, chain_outpoint, has, chain_data, is_local, find_local, add_each, confirm_all, missing,
  gone, seen, sync_utxos,
}
use patch_proof_api.Manager.Outpoints.{
  All-kept, All-keeps, All-modify_to, among-keep, has_self, among-All,
}

module _ (c : Collection Utxo) where
  -- If it is available and of the funding key, it is on the chain.
  abbrev pub IsBackedOnChain : Config → List Unspent → Utxo → Type 0
  IsBackedOnChain cfg chain u =
      u.key_identifier ≡ cfg.funding_key
      → u.status ≡ available
      → has (map chain_outpoint chain) (outpoint u) ≡ true

  abbrev OnChainOr : Config → List Unspent → List Utxo → Utxo → Type 0
  OnChainOr cfg chain going u =
      u.key_identifier ≡ cfg.funding_key
      → u.status ≡ available
      → (has (map chain_outpoint chain) (outpoint u) ≡ true)
        ⊎ (is_among (map outpoint going) u ≡ true)

  find_local-keep : (key : ℕ) (us : List Utxo) → find_local c key us ≡ keep (is_local key) us
  find_local-keep key us = c.find_law (is_local key) 0 us

  before-sync :
      (cfg : Config) (chain : List Unspent) (us : List Utxo)
      → All (OnChainOr cfg chain (gone c chain (find_local c cfg.funding_key us))) us
  before-sync cfg chain us =
      subst (λ l. All (OnChainOr cfg chain (gone c chain l)) us)
        (sym (find_local-keep cfg.funding_key us))
        (All-mono _ _ us
          (λ u f key st. elim (Bool-cases (has (map chain_outpoint chain) (outpoint u))) [
            | inl on ↦ inl on
            | inr off ↦ inr (f (rw (st, key, ==_self cfg.funding_key) refl) (rw (st, off) refl))
          ])
          (among-keep (is_local cfg.funding_key)
            (λ u. is_available u.status && not (has (map chain_outpoint chain) (outpoint u))) us))

  add_each-OnChainOr :
      (cfg : Config) (chain : List Unspent) (going : List Utxo) (now tip : ℕ) (new : List Unspent)
      (us : List Utxo)
      → All (λ e. has (map chain_outpoint chain) (chain_outpoint e) ≡ true) new
      → All (OnChainOr cfg chain going) us
      → All (OnChainOr cfg chain going) (add_each c cfg now tip new us)
  unfolding add_each add_utxo
  add_each-OnChainOr cfg chain going now tip [] us on a = a
  add_each-OnChainOr cfg chain going now tip (e ∷ r) us on a =
      add_each-OnChainOr cfg chain going now tip r _ on.1 (
        rw
          (c.upsert_law (is_at (chain_outpoint e))
            (λ u. of_data now u.lock_id (chain_data cfg tip e))
            (of_data now none (chain_data cfg tip e)) us)
          (All-upsert (OnChainOr cfg chain going) _ _ _ us (λ u h p key st. inl on.0)
            (λ key st. inl on.0) a))

  spend-Backed :
      (cfg : Config) (chain : List Unspent) (now : ℕ) (going us : List Utxo)
      → All (OnChainOr cfg chain going) us
      → All (IsBackedOnChain cfg chain) (spend_utxos c now going us)
  unfolding spend_utxos
  spend-Backed cfg chain now [] us a = All-mono _ _ us (λ u f key st. left (f key st)) a
    where
      left : {P : Type 0} → P ⊎ (false ≡ true) → P
      left (inl p) = p
      left (inr e) = absurd (cc)
  spend-Backed cfg chain now (g ∷ gs) us a =
      rw (c.update_many_law (is_among (map outpoint (g ∷ gs))) (set_status now spent) us) (
        All-modify_to _ _ (is_among (map outpoint (g ∷ gs))) (set_status now spent) us
          (λ u h f key st. absurd (spent-available st)) (λ u h f key st. left u h (f key st)) a)
    where
      spent-available : spent ≢ available
      spent-available e = absurd (cc)

      left :
          {P : Type 0} (u : Utxo)
          → is_among (map outpoint (g ∷ gs)) u ≡ false
          → P ⊎ (is_among (map outpoint (g ∷ gs)) u ≡ true)
          → P
      left u h (inl p) = p
      left u h (inr e) = absurd (cc)

  confirm-Backed :
      (cfg : Config) (chain : List Unspent) (now : ℕ) (local us : List Utxo)
      → All (IsBackedOnChain cfg chain) us
      → All (IsBackedOnChain cfg chain) (confirm_all c now (seen c chain local) us)
  confirm-Backed cfg chain now local us a =
      rw
        (c.update_many_law (is_among (map outpoint (seen c chain local))) (set_status now available)
          us)
        (All-modify_all (IsBackedOnChain cfg chain) (is_among (map outpoint (seen c chain local)))
          (set_status now available) us
          (λ u h f key st.
            among-All (λ o. has (map chain_outpoint chain) o ≡ true) (seen c chain local) u
              (All-keeps _ _ local (λ x e. and-right (is_unconfirmed x.status) _ e)) h)
          a)
    where
      and-right : (a b : Bool) → (a && b) ≡ true → b ≡ true
      and-right true b h = h
      and-right false b h = absurd (cc)

  -- After a synchronisation that is no dry run, every output of the funding key that is available
  -- is on the chain, whatever the pool held before.
  pub sync-IsBackedOnChain :
      (cfg : Config) (now tip : ℕ) (chain : List Unspent) (us : List Utxo)
      → All (IsBackedOnChain cfg chain) (sync_utxos c cfg false now tip chain us).1
  unfolding sync_utxos
  sync-IsBackedOnChain cfg now tip chain us =
      let local = find_local c cfg.funding_key us in
      confirm-Backed cfg chain now local _ (
        spend-Backed cfg chain now (gone c chain local) _ (
          add_each-OnChainOr cfg chain (gone c chain local) now tip (missing c chain local) us
            (All-kept _ _ chain (has_self chain)) (before-sync cfg chain us)))

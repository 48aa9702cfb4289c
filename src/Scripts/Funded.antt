-- ===== src/Scripts/Funded.antt =====
-- scripts/addUtxo.js: which outputs the script adds, and what else it leaves in the pool.
use patch_proof_api.Base.{
  ℕ, ◌≡◌, ◌⊎◌, refl, sym, subst, Bool, true, false, ◌&&◌, ◌||◌, not, List, [], ◌∷◌, ◌++◌, Option,
  none, some, arith, ◌==◌, ==_iff, All, Bool-cases, inl, inr, is_some,
}
use patch_proof_api.Mongo.{Collection, first, modify_first, modify_all}
use patch_proof_api.Mongo.Laws.{first-passes}
use patch_proof_api.Retry.{Unspent}
use patch_proof_api.Utxo.{Utxo, spent, is_at, is_available, set_status}
use patch_proof_api.Scripts.AddUtxo.{
  Args, World, Checked, exits, passes, check, add_utxo_script, derived_address, is_listed,
  unless_spent, addressed, listed, matched, add, mark_others, overwrite, inserted,
}

-- The chain lists the output, unspent, under the address that was given or derived, with its value.
abbrev pub OnChain : Args → World → Type 0
OnChain a w =
    (addr : ℕ) × (us : List Unspent) × (u : Unspent) × (derived_address a w a.address a.script
      ≡ some addr)
    × (w.unspent_of addr ≡ some us)
    × (first (is_listed a) us ≡ some u)
    × (u.tx_hash ≡ a.txid)
    × (u.tx_pos ≡ a.vout)
    × (u.value ≡ a.satoshis)

module _ (a : Args) (w : World) where
  -- An exit, or an output that is verified.
  abbrev pub Verified : Checked → Type 0
  Verified r =
      ((code : ℕ) × (r ≡ exits code))
      ⊎ ((script : Option ℕ) × (r ≡ passes true script) × OnChain a w)

  module _ (strict : a.force ≡ false) where
    matched-Verified :
        (addr : ℕ) (us : List Unspent) (o : Option Unspent)
        → derived_address a w a.address a.script ≡ some addr
        → w.unspent_of addr ≡ some us
        → first (is_listed a) us ≡ o
        → Verified (matched a w addr o)
    matched-Verified addr us none d l e = rw strict (inl (4, refl))
    matched-Verified addr us (some u) d l e = elim (Bool-cases (u.value == a.satoshis)) [
      | inr other ↦ rw (other, strict) (inl (5, refl))
      | inl same ↦
          let here = first-passes (is_listed a) us u e in
          rw same (
            inr (
              _,
              refl,
              (
                addr,
                us,
                u,
                d,
                l,
                e,
                ground arith,
                ground arith,
                (==_iff u.value a.satoshis).0 same,
              ),
            ))
    ]

    listed-Verified :
        (addr : ℕ) (o : Option (List Unspent))
        → derived_address a w a.address a.script ≡ some addr
        → w.unspent_of addr ≡ o
        → Verified (listed a w addr o)
    listed-Verified addr none d e = rw strict (inl (7, refl))
    listed-Verified addr (some us) d e = matched-Verified addr us (first (is_listed a) us) d e refl

    addressed-Verified :
        (o : Option ℕ) → derived_address a w a.address a.script ≡ o → Verified (addressed a w o)
    addressed-Verified none d = rw strict (inl (6, refl))
    addressed-Verified (some addr) d = listed-Verified addr (w.unspent_of addr) d refl

  module _ (c : Collection Utxo) where
    -- Without `--force` the script adds no output that the chain does not back. It exits and leaves
    -- the pool as it was, or the output is unspent, is listed under its address with the value
    -- that was given, and is then added.
    pub added_is_backed :
        (now : ℕ) (us : List Utxo)
        → a.force ≡ false
        → let (r, us') = add_utxo_script a w c now us in
          ((code : ℕ) × (r ≡ exits code) × (us' ≡ us))
          ⊎ ((script : Option ℕ) × (r ≡ passes true script)
              × OnChain a w
              × (w.is_utxo_spent ≡ some false)
              × (us' ≡ add a w c now script us))
    unfolding add_utxo_script check
    added_is_backed now us strict = elim (Bool-cases (a.exclusive && not a.confirm)) [
      | inl unconfirmed ↦ rw unconfirmed (inl (1, refl, refl))
      | inr confirmed ↦ elim (Bool-cases (w.client_starts)) [
        | inr down ↦ rw (confirmed, down) (inl (2, refl, refl))
        | inl up ↦ rw (confirmed, up) (asked w.is_utxo_spent refl)
      ]
    ]
      where
        done :
            (r : Checked)
            → w.is_utxo_spent ≡ some false
            → Verified r
            → let (r, us') = patch_proof_api.Scripts.AddUtxo.finish a w c now r us in
              ((code : ℕ) × (r ≡ exits code) × (us' ≡ us))
              ⊎ ((script : Option ℕ) × (r ≡ passes true script)
                  × OnChain a w
                  × (w.is_utxo_spent ≡ some false)
                  × (us' ≡ add a w c now script us))
        done r free (inl (code, e)) = rw e (inl (code, refl, refl))
        done r free (inr (script, e, chain)) = rw e (inr (script, refl, chain, free, refl))

        asked :
            (o : Option Bool)
            → w.is_utxo_spent ≡ o
            → let (r, us') =
                patch_proof_api.Scripts.AddUtxo.finish a w c now (unless_spent a w o) us in
              ((code : ℕ) × (r ≡ exits code) × (us' ≡ us))
              ⊎ ((script : Option ℕ) × (r ≡ passes true script)
                  × OnChain a w
                  × (w.is_utxo_spent ≡ some false)
                  × (us' ≡ add a w c now script us))
        asked none e = inl (3, refl, refl)
        asked (some true) e = inl (2, refl, refl)
        asked (some false) e =
            done (addressed a w (derived_address a w a.address a.script)) e
              (addressed-Verified strict (derived_address a w a.address a.script) refl)

  -- An available output is the one that is added.
  abbrev pub IsTheOne : Utxo → Type 0
  IsTheOne u = is_available u.status ≡ true → is_at (a.txid, a.vout) u ≡ true

  modify_all-IsTheOne :
      (now : ℕ) (us : List Utxo)
      → All IsTheOne (
          modify_all
            (λ u. is_available u.status && (not (u.txid == a.txid) || not (u.vout == a.vout)))
            (set_status now spent)
            us)
  modify_all-IsTheOne now [] = tt
  modify_all-IsTheOne now (u ∷ us) = ((λ h. ground arith), modify_all-IsTheOne now us)

  overwrite-is_at :
      (now : ℕ) (script : Option ℕ) (u : Utxo)
      → is_at (a.txid, a.vout) u ≡ true
      → is_at (a.txid, a.vout) (overwrite a w now script u) ≡ true
  overwrite-is_at now none u h = h
  overwrite-is_at now (some s) u h = h

  modify_first-IsTheOne :
      (now : ℕ) (script : Option ℕ) (us : List Utxo)
      → All IsTheOne us
      → All IsTheOne (modify_first (is_at (a.txid, a.vout)) (overwrite a w now script) us)
  modify_first-IsTheOne now script [] h = tt
  modify_first-IsTheOne now script (u ∷ us) h = elim (Bool-cases (is_at (a.txid, a.vout) u)) [
    | inl hit ↦ rw hit ((λ _. overwrite-is_at now script u hit), h.1)
    | inr miss ↦ rw miss (h.0, modify_first-IsTheOne now script us h.1)
  ]

  append-IsTheOne :
      (u : Utxo) (us : List Utxo) → All IsTheOne us → IsTheOne u → All IsTheOne (us ++ u ∷ [])
  append-IsTheOne u [] h one = (one, tt)
  append-IsTheOne u (x ∷ us) h one = (h.0, append-IsTheOne u us h.1 one)

  module _ (c : Collection Utxo) where
    -- In exclusive mode no other output of the pool is available after the output was added.
    exclusive_leaves_one :
        (now : ℕ) (script : Option ℕ) (us : List Utxo)
        → a.exclusive ≡ true
        → All IsTheOne (add a w c now script us)
    exclusive_leaves_one now script us ex =
        let others : List Utxo =
          modify_all
            (λ u. is_available u.status && (not (u.txid == a.txid) || not (u.vout == a.vout)))
            (set_status now spent) us in
        let left = modify_all-IsTheOne now us in
        let marked : mark_others a w c now us ≡ others = simp ex (c.update_many_law _ _ us) in
        subst
          (λ l. All IsTheOne (
            c.upsert (is_at (a.txid, a.vout)) (overwrite a w now script) (inserted a w now script)
              l))
          (sym marked)
          (rw c.upsert_law (elim (Bool-cases (is_some (first (is_at (a.txid, a.vout)) others))) [
            | inl there ↦ rw there (modify_first-IsTheOne now script others left)
            | inr absent ↦
                rw absent
                  (append-IsTheOne (inserted a w now script) others left (λ _. ground arith))
          ]))

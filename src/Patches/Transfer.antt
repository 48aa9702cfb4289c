-- ===== src/Patches/Transfer.antt =====
-- controllers/patchController.js: who may transfer a patch, unlock its content, or change the
-- store.
use patch_proof_api.Base.{
  ℕ, ◌≡◌, ◌≢◌, ◌⊎◌, refl, sym, ap, ◌∙◌, Bool, true, false, Option, none, some, arith, Bool-cases,
  Option-cases, inl, inr, ==_iff,
}
use patch_proof_api.Records.{get_patch_state, get_record_by_txid, create_pending_transfer}
use patch_proof_api.Records.Model.{Driver, Store, RecordData, PatchState}
use patch_proof_api.Patches.{
  Crypto, Env, Response, bad_request, not_found, forbidden, server_error, authorized, transfer_data,
  is_owner, dispatch, transferred, transfer_ownership, unlock_content, transfer_ownership_handler,
  unlock_content_handler, unlock_owned, unlock_state, unlocked,
}

module _ (db : Driver) (crypto : Crypto) where
  -- The caller holds the key of the owner of the patch, and signed this transfer with it.
  abbrev pub Authorised : ℕ → ℕ → ℕ → ℕ → RecordData → Store → Type 0
  Authorised txid new_owner sig key d s =
      (p : PatchState) × (owner : ℕ) × (get_record_by_txid db txid s ≡ some d)
      × (get_patch_state db d.uid_tag_id s ≡ some p)
      × (p.current_owner_address ≡ some owner)
      × (crypto.address_of key ≡ some owner)
      × (crypto.verify (transfer_ownership d.uid_tag_id txid new_owner) sig key ≡ true)

  owned : (address : ℕ) (o : Option ℕ) → is_owner db crypto address o ≡ true → o ≡ some address
  owned address none h = absurd (cc)
  owned address (some owner) h = ap some (sym ((==_iff address owner).0 h))

  -- A request to transfer is refused, and the store is what it was, or it is dispatched.
  pub transfer_ownership_handler-cases :
      (env : Env) (is_valid : Bool) (txid new_owner sig key : ℕ) (s : Store)
      → let r = transfer_ownership_handler db crypto env is_valid txid new_owner sig key s in
        ((q : Response) × ((t : ℕ) → q ≢ transferred t) × (r ≡ (q, s)))
        ⊎ ((d : RecordData) × Authorised txid new_owner sig key d s
            × (r
                ≡ dispatch db env transferred (
                    create_pending_transfer db env.now env.fresh_id d.uid_tag_id txid
                      (transfer_data env.now new_owner d)
                      s)))
  unfolding transfer_ownership_handler
  transfer_ownership_handler-cases env false txid new_owner sig key s =
      inl (bad_request, (λ t e. cc), refl)
  transfer_ownership_handler-cases env true txid new_owner sig key s =
      elim (Option-cases (get_record_by_txid db txid s)) [
        | inl absent ↦ inl (not_found, (λ t e. cc), rw absent refl)
        | inr (d, found) ↦ elim (Option-cases (get_patch_state db d.uid_tag_id s)) [
          | inl absent ↦ inl (not_found, (λ t e. cc), rw (found, absent) refl)
          | inr (p, there) ↦ elim (Option-cases (crypto.address_of key)) [
            | inl bad ↦ inl (server_error, (λ t e. cc), rw (found, there, bad) refl)
            | inr (a, good) ↦ elim (Bool-cases (is_owner db crypto a p.current_owner_address)) [
              | inr other ↦ inl (forbidden, (λ t e. cc), rw (found, there, good, other) refl)
              | inl own ↦
                  elim (Bool-cases
                    (crypto.verify (transfer_ownership d.uid_tag_id txid new_owner) sig key)) [
                      | inr forged ↦
                          inl (forbidden, (λ t e. cc), rw (found, there, good, own, forged) refl)
                      | inl signed ↦ inr (
                        d,
                        (p, a, found, there, owned a p.current_owner_address own, good, signed),
                        rw (found, there, good, own, signed) refl,
                      )
                    ]
            ]
          ]
        ]
      ]

  -- A request to transfer leaves the store as it is, or the caller is authorised, and the
  -- handler does what `dispatch` does with a pending transfer from the transaction to the new
  -- owner.
  pub transfer_by_owner :
      (env : Env) (is_valid : Bool) (txid new_owner sig key : ℕ) (s : Store)
      → let r = transfer_ownership_handler db crypto env is_valid txid new_owner sig key s in
        (r.1 ≡ s)
        ⊎ ((d : RecordData) × Authorised txid new_owner sig key d s
            × (r
                ≡ dispatch db env transferred (
                    create_pending_transfer db env.now env.fresh_id d.uid_tag_id txid
                      (transfer_data env.now new_owner d)
                      s)))
  transfer_by_owner env is_valid txid new_owner sig key s =
      elim (transfer_ownership_handler-cases env is_valid txid new_owner sig key s) [
        | inl (q, refused, e) ↦ inl (ap (λ r. r.1) e)
        | inr done ↦ inr done
      ]

  unlock-owned :
      (uid sig key txid : ℕ) (content : Option (Option ℕ)) (c : Option ℕ) (p : PatchState)
      (o : Option ℕ)
      → unlock_owned db crypto uid sig key content p o ≡ authorized txid c
      → (owner : ℕ) × (o ≡ some owner)
        × (p.current_owner_address ≡ some owner)
        × (crypto.verify (unlock_content uid p.current_txid) sig key ≡ true)
        × (txid ≡ p.current_txid)
  unlock-owned uid sig key txid content c p none h = absurd (cc)
  unlock-owned uid sig key txid content c p (some a) h =
      elim (Bool-cases (is_owner db crypto a p.current_owner_address)) [
        | inr other ↦ absurd (ground arith)
        | inl own ↦ elim (Bool-cases (crypto.verify (unlock_content uid p.current_txid) sig key)) [
          | inr forged ↦ absurd (ground arith)
          | inl signed ↦ (
            a,
            refl,
            owned a p.current_owner_address own,
            signed,
            answer content (sym (rw (own, signed) refl) ∙ h),
          )
        ]
      ]
    where
      answer :
          (content : Option (Option ℕ))
          → unlocked db crypto p.current_txid content ≡ authorized txid c
          → txid ≡ p.current_txid
      answer none h = cc
      answer (some none) h = absurd (cc)
      answer (some (some x)) h = cc

  -- Content is given out, or its release authorised, only to a caller who holds the key of the
  -- present owner and signed the present transaction with it.
  pub unlock_by_owner :
      (is_valid : Bool) (uid sig key txid : ℕ) (content : Option (Option ℕ)) (c : Option ℕ)
      (s : Store)
      → unlock_content_handler db crypto is_valid uid sig key content s ≡ authorized txid c
      → (p : PatchState) × (owner : ℕ) × (get_patch_state db uid s ≡ some p)
        × (p.current_owner_address ≡ some owner)
        × (crypto.address_of key ≡ some owner)
        × (crypto.verify (unlock_content uid p.current_txid) sig key ≡ true)
        × (txid ≡ p.current_txid)
  unfolding unlock_content_handler
  unlock_by_owner false uid sig key txid content c s h = absurd (cc)
  unlock_by_owner true uid sig key txid content c s h = found (get_patch_state db uid s) refl h
    where
      found :
          (o : Option PatchState)
          → get_patch_state db uid s ≡ o
          → unlock_state db crypto uid sig key content o ≡ authorized txid c
          → (p : PatchState) × (owner : ℕ) × (get_patch_state db uid s ≡ some p)
            × (p.current_owner_address ≡ some owner)
            × (crypto.address_of key ≡ some owner)
            × (crypto.verify (unlock_content uid p.current_txid) sig key ≡ true)
            × (txid ≡ p.current_txid)
      found none e h = absurd (cc)
      found (some p) e h =
          let (owner, a, b, v, t) = unlock-owned uid sig key txid content c p _ h in
          (p, owner, e, b, a, v, t)

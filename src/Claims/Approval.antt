-- ===== src/Claims/Approval.antt =====
-- controllers/posController.js: which claims are accepted, and what becomes of an approval.
use patch_proof_api.Base.{
  ℕ, ◌-◌, ◌≤◌, ◌≡◌, ◌≢◌, ◌⊎◌, refl, ap, ◌∙◌, Bool, true, false, List, [], ◌∷◌, ◌++◌, Option, none,
  some, arith, Bool-cases, Option-cases, inl, inr, ◌==◌, ==_iff,
}
use patch_proof_api.Mongo.{Collection}
use patch_proof_api.Records.{
  get_patch_state, get_record_by_txid, create_pending_transfer, create_record,
}
use patch_proof_api.Records.Model.{Driver, Store, RecordData, PatchState}
use patch_proof_api.Claims.Model.{
  ClaimIntent, IntentStatus, pending, approved, confirmed, failed, expired, Crypto, Response,
  ClaimBody, canonical, new_intent, is_outside, created, approval,
}
use patch_proof_api.Claims.{
  create_claim_intent, approve_found, approve_state, approve_record, approve_intent,
  approve_claim_intent, find_intent,
}

module _ (db : Driver) (intents : Collection ClaimIntent) (crypto : Crypto) (ttl : ℕ) where
  within : (t now ts : ℕ) → is_outside t now ts ≡ false → (now - ts ≤ t) × (ts - now ≤ t)
  within t now ts h = (ground arith, ground arith)

  -- An intent is created exactly as the response says. Either the response is not that an intent is
  -- created, and nothing is stored; or it is, with the id of the one new intent that is stored, and
  -- then the challenge is within the time limit on either side of the clock, the address is that of
  -- the key, the key signed the claim, and the patch exists.
  pub claim_created :
      (is_valid : Bool) (now id : ℕ) (b : ClaimBody) (s : Store) (cs : List ClaimIntent)
      → let (r, cs') = create_claim_intent db intents crypto ttl is_valid now id b s cs in
        ((cs' ≡ cs) × ((i : ℕ) → r ≢ created i))
        ⊎ ((r ≡ created id)
            × (cs' ≡ cs ++ new_intent id b ∷ [])
            × (now - b.ts ≤ ttl)
            × (b.ts - now ≤ ttl)
            × (crypto.address_of b.pub_key ≡ some b.address)
            × (crypto.verify (canonical b) b.signature b.pub_key ≡ true)
            × ((p : PatchState) × (get_patch_state db b.uid s ≡ some p)))
  unfolding create_claim_intent
  claim_created false now id b s cs = inl (refl, λ i h. absurd (cc))
  claim_created true now id b s cs = elim (Bool-cases (is_outside ttl now b.ts)) [
    | inl late ↦ rw late (inl (refl, λ i h. absurd (cc)))
    | inr fresh ↦ elim (Option-cases (crypto.address_of b.pub_key)) [
      | inl bad ↦ rw (fresh, bad) (inl (refl, λ i h. absurd (cc)))
      | inr (a, derived) ↦ elim (Bool-cases (a == b.address)) [
        | inr other ↦ rw (fresh, derived, other) (inl (refl, λ i h. absurd (cc)))
        | inl same ↦ elim (Bool-cases (crypto.verify (canonical b) b.signature b.pub_key)) [
          | inr forged ↦ rw (fresh, derived, same, forged) (inl (refl, λ i h. absurd (cc)))
          | inl signed ↦ elim (Option-cases (get_patch_state db b.uid s)) [
            | inl absent ↦
                rw (fresh, derived, same, signed, absent) (inl (refl, λ i h. absurd (cc)))
            | inr (p, there) ↦ inr (
              rw (fresh, derived, same, signed, there) refl,
              rw (fresh, derived, same, signed, there) (intents.create_law (new_intent id b) cs),
              (within ttl now b.ts fresh).0,
              (within ttl now b.ts fresh).1,
              derived ∙ ap some ((==_iff a b.address).0 same),
              signed,
              (p, there),
            )
          ]
        ]
      ]
    ]
  ]

  abbrev Refused : Response × Store × List ClaimIntent → Store → Type 0
  Refused (r, s', cs') s = (s' ≡ s) × ((i pid : ℕ) (job : Option ℕ) → r ≢ approval i pid job)

  record-Refused :
      (now id by : ℕ) (i : ClaimIntent) (job : Option (Option ℕ)) (p : PatchState)
      (o : Option RecordData) (s : Store) (cs : List ClaimIntent)
      → Refused (approve_record db intents crypto ttl now id by i job p o s cs) s
  unfolding create_pending_transfer create_record
  record-Refused now id by i job p none s cs = (refl, λ i pid job h. absurd (cc))
  record-Refused now id by i job p (some d) s cs = (refl, λ i pid job h. absurd (cc))

  state-Refused :
      (now id by : ℕ) (i : ClaimIntent) (job : Option (Option ℕ)) (o : Option PatchState)
      (s : Store) (cs : List ClaimIntent)
      → Refused (approve_state db intents crypto ttl now id by i job o s cs) s
  state-Refused now id by i job none s cs = (refl, λ i pid job h. absurd (cc))
  state-Refused now id by i job (some p) s cs =
      record-Refused now id by i job p (get_record_by_txid db p.current_txid s) s cs

  found-Refused :
      (now id by : ℕ) (i : ClaimIntent) (st : IntentStatus) (job : Option (Option ℕ)) (s : Store)
      (cs : List ClaimIntent)
      → Refused (approve_found db intents crypto ttl now id by i st job s cs) s
  found-Refused now id by i pending job s cs = elim (Bool-cases (is_outside ttl now i.ts)) [
    | inl late ↦ rw late (refl, λ i pid job h. absurd (cc))
    | inr fresh ↦ rw fresh (state-Refused now id by i job (get_patch_state db i.uid s) s cs)
  ]
  found-Refused now id by i approved job s cs = (refl, λ i pid job h. absurd (cc))
  found-Refused now id by i confirmed job s cs = (refl, λ i pid job h. absurd (cc))
  found-Refused now id by i failed job s cs = (refl, λ i pid job h. absurd (cc))
  found-Refused now id by i expired job s cs = (refl, λ i pid job h. absurd (cc))

  intent-Refused :
      (now id by : ℕ) (o : Option ClaimIntent) (job : Option (Option ℕ)) (s : Store)
      (cs : List ClaimIntent)
      → Refused (approve_intent db intents crypto ttl now id by o job s cs) s
  intent-Refused now id by none job s cs = (refl, λ i pid job h. absurd (cc))
  intent-Refused now id by (some i) job s cs = found-Refused now id by i i.status job s cs

  -- No claim can be approved: the record of the transfer lacks the signature and the key of the
  -- issuer, which the schema requires, so that no request is answered with an approval and the
  -- records and patch states stay as they are, whatever the intents, the patches and the queue.
  pub approval_impossible :
      (is_valid : Bool) (now id intent_id by : ℕ) (job : Option (Option ℕ)) (s : Store)
      (cs : List ClaimIntent)
      → let (r, s', cs') =
          approve_claim_intent db intents crypto ttl is_valid now id intent_id by job s cs in
        (s' ≡ s) × ((i pid : ℕ) (j : Option ℕ) → r ≢ approval i pid j)
  unfolding approve_claim_intent
  approval_impossible false now id intent_id by job s cs = (refl, λ i pid j h. absurd (cc))
  approval_impossible true now id intent_id by job s cs =
      intent-Refused now id by (find_intent db intents crypto ttl intent_id cs) job s cs

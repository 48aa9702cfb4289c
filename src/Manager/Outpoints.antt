-- ===== src/Manager/Outpoints.antt =====
-- services/utxoManagerService.js: the sets of outpoints that `syncUtxos` compares.
use patch_proof_api.Base.{
  ◌≡◌, ◌≢◌, refl, sym, subst, ◌∙◌, Bool, true, false, ◌||◌, List, [], ◌∷◌, map, arith, ==_self, All,
  All-mono, keep, Bool-cases, inl, inr,
}
use patch_proof_api.Mongo.{modify_all}
use patch_proof_api.Retry.{Unspent}
use patch_proof_api.Utxo.{Utxo, Outpoint, outpoint, is_at, is_among}
use patch_proof_api.Manager.{chain_outpoint, same_outpoint, has}

pub All-kept :
    {A : Type 0} (P : A → Type 0) (p : A → Bool) (xs : List A) → All P xs → All P (keep p xs)
All-kept P p [] a = tt
All-kept P p (x ∷ xs) a = elim (Bool-cases (p x)) [
  | inl h ↦ rw h (a.0, All-kept P p xs a.1)
  | inr h ↦ rw h (All-kept P p xs a.1)
]

pub All-keeps :
    {A : Type 0} (P : A → Type 0) (p : A → Bool) (xs : List A)
    → ((x : A) → p x ≡ true → P x)
    → All P (keep p xs)
All-keeps P p [] h = tt
All-keeps P p (x ∷ xs) h = elim (Bool-cases (p x)) [
  | inl e ↦ rw e (h x e, All-keeps P p xs h)
  | inr e ↦ rw e (All-keeps P p xs h)
]

pub All-modify_to :
    {A : Type 0} (P Q : A → Type 0) (p : A → Bool) (f : A → A) (xs : List A)
    → ((x : A) → p x ≡ true → P x → Q (f x))
    → ((x : A) → p x ≡ false → P x → Q x)
    → All P xs
    → All Q (modify_all p f xs)
All-modify_to P Q p f [] h k a = tt
All-modify_to P Q p f (x ∷ xs) h k a = elim (Bool-cases (p x)) [
  | inl e ↦ rw e (h x e a.0, All-modify_to P Q p f xs h k a.1)
  | inr e ↦ rw e (k x e a.0, All-modify_to P Q p f xs h k a.1)
]

or-right : (a b : Bool) → b ≡ true → (a || b) ≡ true
or-right true b h = refl
or-right false b h = h

at_self : (u : Utxo) → is_at (outpoint u) u ≡ true
at_self u = rw (==_self u.txid, ==_self u.vout) refl

at-same : (o : Outpoint) (u : Utxo) → is_at o u ≡ true → outpoint u ≡ o
at-same (t, v) u h = ground arith

-- What passes both tests is among the outpoints of what is kept.
pub among-keep :
    (l g : Utxo → Bool) (us : List Utxo)
    → All (λ u. l u ≡ true → g u ≡ true → is_among (map outpoint (keep g (keep l us))) u ≡ true) us
among-keep l g [] = tt
among-keep l g (x ∷ us) = elim (Bool-cases (l x)) [
  | inr out ↦
      let e : keep g (keep l (x ∷ us)) ≡ keep g (keep l us) = rw out refl in
      subst (λ ws. All (Among ws) (x ∷ us)) (sym e)
        (λ h k. absurd (false-true (sym out ∙ h)), among-keep l g us)
  | inl ins ↦ elim (Bool-cases (g x)) [
    | inr out ↦
        let e : keep g (keep l (x ∷ us)) ≡ keep g (keep l us) = rw (ins, out) refl in
        subst (λ ws. All (Among ws) (x ∷ us)) (sym e)
          (λ h k. absurd (false-true (sym out ∙ k)), among-keep l g us)
    | inl both ↦
        let e : keep g (keep l (x ∷ us)) ≡ x ∷ keep g (keep l us) = rw (ins, both) refl in
        subst (λ ws. All (Among ws) (x ∷ us)) (sym e)
          (
            λ h k. rw (at_self x) refl,
            All-mono _ _ us
                (λ u f h k.
                  or-right (is_at (outpoint x) u) (is_among (map outpoint (keep g (keep l us))) u)
                    (f h k))
                (among-keep l g us),
          )
  ]
]
  where
    Among : List Utxo → Utxo → Type 0
    Among ws u = l u ≡ true → g u ≡ true → is_among (map outpoint ws) u ≡ true

    false-true : false ≢ true
    false-true h = absurd (cc)

same_self : (o : Outpoint) → same_outpoint o o ≡ true
same_self (t, v) = rw (==_self t, ==_self v) refl

pub has_self :
    (chain : List Unspent)
    → All (λ u. has (map chain_outpoint chain) (chain_outpoint u) ≡ true) chain
has_self [] = tt
has_self (x ∷ xs) = (
  rw (same_self (chain_outpoint x)) refl,
  All-mono _ _ xs (λ u h. or-right (same_outpoint (chain_outpoint u) (chain_outpoint x)) _ h)
      (has_self xs),
)

-- The outpoint of a document that is among the outpoints of some is the outpoint of one of these.
pub among-All :
    (P : Outpoint → Type 0) (ds : List Utxo) (u : Utxo)
    → All (λ d. P (outpoint d)) ds
    → is_among (map outpoint ds) u ≡ true
    → P (outpoint u)
among-All P [] u a h = absurd (cc)
among-All P (d ∷ ds) u a h = elim (Bool-cases (is_at (outpoint d) u)) [
  | inl at ↦ subst P (sym (at-same (outpoint d) u at)) a.0
  | inr other ↦ among-All P ds u a.1 (sym (rw other refl) ∙ h)
]

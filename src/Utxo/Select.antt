-- ===== src/Utxo/Select.antt =====
-- services/utxoService.js: what `selectAndLockUtxo` hands out.
use patch_proof_api.Base.{
  ℕ, ◌≤◌, ◌≡◌, ◌≢◌, refl, sym, ap, subst, ◌∙◌, Bool, true, false, List, [], ◌∷◌, ◌++◌, map, Option,
  none, some, arith, All, inl, inr, Bool-cases, if◌then◌else◌,
}
use patch_proof_api.Mongo.{Collection, Picks, first}
use patch_proof_api.Utxo.{
  Utxo, available, locked, Outpoint, outpoint, is_at, is_candidate, set_status,
  select_and_lock_utxo,
}

-- No two documents have the same outpoint.
abbrev pub IsUniqueOutput : List Utxo → Type 0
IsUniqueOutput [] = Unit
IsUniqueOutput (u ∷ us) = All (λ e. is_at (outpoint u) e ≡ false) us × IsUniqueOutput us

All-split {ℓ} : {A : Type ℓ} (P : A → Type 0) (xs ys : List A) (a : A) → All P (xs ++ a ∷ ys) → P a
All-split P [] ys a h = h.0
All-split P (x ∷ xs) ys a h = All-split P xs ys a h.1

All-split_lists {ℓ} :
    {A : Type ℓ} (P : A → Type 0) (xs ys : List A) (a b : A)
    → All P (xs ++ a ∷ ys)
    → P b
    → All P (xs ++ b ∷ ys)
All-split_lists P [] ys a b h k = (k, h.1)
All-split_lists P (x ∷ xs) ys a b h k = (h.0, All-split_lists P xs ys a b h.1 k)

-- Only one document of a pool is at the outpoint of a document in it.
others_elsewhere :
    (xs ys : List Utxo) (d : Utxo)
    → IsUniqueOutput (xs ++ d ∷ ys)
    → All (λ u. is_at (outpoint d) u ≡ false) (xs ++ ys)
others_elsewhere [] ys d u = u.0
others_elsewhere (x ∷ xs) ys d u =
    let apart = All-split _ xs ys d u.0 in (ground arith, others_elsewhere xs ys d u.1)

-- The pool with one output in place of what it holds at that outpoint.
abbrev pub replaced : Utxo → List Utxo → List Utxo
replaced u us = map (λ e. if is_at (outpoint u) e then u else e) us

replaced-elsewhere :
    (u : Utxo) (us : List Utxo) → All (λ e. is_at (outpoint u) e ≡ false) us → replaced u us ≡ us
replaced-elsewhere u [] h = refl
replaced-elsewhere u (x ∷ us) h = rw h.0 (ap (λ l. x ∷ l) (replaced-elsewhere u us h.1))

replaced-split :
    (u d : Utxo) (xs ys : List Utxo)
    → is_at (outpoint u) d ≡ true
    → All (λ e. is_at (outpoint u) e ≡ false) (xs ++ ys)
    → replaced u (xs ++ d ∷ ys) ≡ xs ++ u ∷ ys
replaced-split u d [] ys hit h = rw hit (ap (λ l. u ∷ l) (replaced-elsewhere u ys h))
replaced-split u d (x ∷ xs) ys hit h = rw h.0 (ap (λ l. x ∷ l) (replaced-split u d xs ys hit h.1))

first-split :
    {D : Type 0} (p : D → Bool) (d : D) (xs ys : List D)
    → p d ≡ true
    → All (λ e. p e ≡ false) (xs ++ ys)
    → first p (xs ++ d ∷ ys) ≡ some d
first-split p d [] ys hit h = rw hit refl
first-split p d (x ∷ xs) ys hit h = rw h.0 (first-split p d xs ys hit h.1)

module _ (c : Collection Utxo) where
  -- What `selectAndLockUtxo` has done, by what it returns: the pool is as it was, or one output of
  -- it is locked and every other document is as it was.
  abbrev pub Selects : ℕ → ℕ → ℕ → List Utxo → Option Utxo → List Utxo → Type 0
  Selects now key amount us none us' = All (λ e. is_candidate key amount e ≡ false) us × (us' ≡ us)
  Selects now key amount us (some u) us' =
      (d : Utxo) × (first (is_at (outpoint u)) us ≡ some d)
      × (d.status ≡ available)
      × (d.key_identifier ≡ key)
      × (amount ≤ d.satoshis)
      × All (λ e. is_candidate key amount e ≡ true → d.satoshis ≤ e.satoshis) us
      × (u ≡ record d { status = locked; updated_at = now })
      × (us' ≡ replaced u us)

  Selects-pick :
      (now key amount : ℕ) (us us' : List Utxo) (r : Option Utxo)
      → IsUniqueOutput us
      → Picks (is_candidate key amount) (λ u. u.satoshis) (set_status now locked) us r us'
      → Selects now key amount us r us'
  Selects-pick now key amount us us' none u (inl (a, e, same)) = (a, same)
  Selects-pick now key amount us us' (some x) u (inl (a, e, same)) = absurd (cc)
  Selects-pick now key amount us us' none u (inr (xs, d, ys, e, p, a, r, e')) = absurd (cc)
  Selects-pick now key amount us us' (some x) u (inr (xs, d, ys, e, p, a, r, e')) =
      let got : set_status now locked d ≡ x = ground arith in
      let apart = others_elsewhere xs ys d (subst IsUniqueOutput e u) in
      let here : is_at (outpoint d) d ≡ true = ground arith in
      subst (λ y. Selects now key amount us (some y) us') got
        (
          d,
          ap (first (is_at (outpoint d))) e ∙ first-split _ d xs ys here apart,
          ground arith,
          ground arith,
          ground arith,
          a,
          refl,
          e'
              ∙ sym (
                  ap (replaced (set_status now locked d)) e
                  ∙ replaced-split (set_status now locked d) d xs ys here apart),
        )

  -- On every branch: with no candidate nothing changes and none is returned; otherwise what is
  -- returned is the output that the pool holds at its outpoint, which was available, is of the key
  -- and covers the amount, and than which no candidate is smaller, now locked; and in the pool
  -- afterwards it stands in place of that output, and every other document is as it was. The pool
  -- has one document for each outpoint.
  pub select_and_lock-Selects :
      (now key amount : ℕ) (us : List Utxo)
      → IsUniqueOutput us
      → Selects now key amount us
          (select_and_lock_utxo c now key amount us).0
          (select_and_lock_utxo c now key amount us).1
  unfolding select_and_lock_utxo
  select_and_lock-Selects now key amount us u =
      Selects-pick now key amount us _ _ u (c.find_one_and_update_law _ _ _ us)

  -- The pool holds an outpoint as locked, if at all.
  abbrev IsHeld : Outpoint → List Utxo → Type 0
  IsHeld o us = All (λ e. is_at o e ≡ true → e.status ≡ locked) us

  replaced-IsHeld :
      (u : Utxo) (us : List Utxo) → u.status ≡ locked → IsHeld (outpoint u) (replaced u us)
  replaced-IsHeld u [] h = tt
  replaced-IsHeld u (x ∷ us) h = elim (Bool-cases (is_at (outpoint u) x)) [
    | inl hit ↦ rw hit ((λ _. h), replaced-IsHeld u us h)
    | inr miss ↦ rw miss ((λ yes'. absurd (cc)), replaced-IsHeld u us h)
  ]

  selected-IsHeld :
      (now key amount : ℕ) (us us' : List Utxo) (u : Utxo)
      → Selects now key amount us (some u) us'
      → IsHeld (outpoint u) us'
  selected-IsHeld now key amount us us' u (d, at, av, k, am, least, got, pool) =
      rw pool (replaced-IsHeld u us (ap (λ x. x.status) got))

  pick-IsHeld :
      (o : Outpoint) (now key amount : ℕ) (us us' : List Utxo) (r : Option Utxo)
      → IsHeld o us
      → Picks (is_candidate key amount) (λ u. u.satoshis) (set_status now locked) us r us'
      → IsHeld o us'
  pick-IsHeld o now key amount us us' r h (inl (a, e, same)) = rw same h
  pick-IsHeld o now key amount us us' r h (inr (xs, d, ys, e, p, a, r', e')) =
      rw e' (All-split_lists _ xs ys d _ (subst (IsHeld o) e h) (λ _. refl))

  -- Selections by other requests, each with its time, its key and its amount.
  unfoldable pub selections : List (ℕ × ℕ × ℕ) → List Utxo → List Utxo
  selections [] us = us
  selections ((now, key, amount) ∷ rs) us =
      selections rs (select_and_lock_utxo c now key amount us).1

  selections-IsHeld :
      (o : Outpoint) (rs : List (ℕ × ℕ × ℕ)) (us : List Utxo)
      → IsHeld o us
      → IsHeld o (selections rs us)
  unfolding selections select_and_lock_utxo
  selections-IsHeld o [] us h = h
  selections-IsHeld o ((now, key, amount) ∷ rs) us h =
      selections-IsHeld o rs _
        (pick-IsHeld o now key amount us _ _ h (c.find_one_and_update_law _ _ _ us))

  -- A candidate that was picked stands in the list that it was picked from.
  picked_from :
      (key amount : ℕ) (P : Utxo → Type 0) (now : ℕ) (us us' : List Utxo) (v : Utxo)
      → All P us
      → Picks (is_candidate key amount) (λ u. u.satoshis) (set_status now locked) us (some v) us'
      → (e : Utxo) × P e × (is_candidate key amount e ≡ true) × (outpoint v ≡ outpoint e)
  picked_from key amount P now us us' v h (inl (a, e, same)) = absurd (cc)
  picked_from key amount P now us us' v h (inr (xs, d, ys, e, p, a, r, e')) =
      (d, All-split P xs ys d (subst (All P) e h), p, ground arith)

  locked_or_free :
      (key amount : ℕ) (o : Outpoint) (d : Utxo)
      → o ≡ outpoint d
      → (is_at o d ≡ true → d.status ≡ locked)
      → is_candidate key amount d ≡ true
      → ⊥
  locked_or_free key amount o d e lock pass =
      let here : is_at o d ≡ true = rw e (ground arith) in
      let st : d.status ≡ locked = lock here in ground arith

  -- As long as the pool is changed by selections only, what a selection has locked no later
  -- selection returns, however many there are in between, and whatever their keys and amounts. The
  -- pool has one document for each outpoint.
  pub selections_differ :
      (now now' key key' amount amount' : ℕ) (us us1 us2 : List Utxo) (u v : Utxo)
      (between : List (ℕ × ℕ × ℕ))
      → IsUniqueOutput us
      → select_and_lock_utxo c now key amount us ≡ (some u, us1)
      → select_and_lock_utxo c now' key' amount' (selections between us1) ≡ (some v, us2)
      → outpoint u ≢ outpoint v
  unfolding select_and_lock_utxo
  selections_differ now now' key key' amount amount' us us1 us2 u v between un e e' same =
      let held : Selects now key amount us (some u) us1 =
        subst (λ m. Selects now key amount us m.0 m.1) e
          (select_and_lock-Selects now key amount us un) in
      let still : IsHeld (outpoint u) (selections between us1) =
        selections-IsHeld (outpoint u) between us1 (selected-IsHeld now key amount us us1 u held) in
      let picks : Picks (is_candidate key' amount') (λ x. x.satoshis) (set_status now' locked)
          (selections between us1) (some v) us2 =
        subst
          (λ m.
            Picks (is_candidate key' amount') (λ x. x.satoshis) (set_status now' locked)
              (selections between us1) m.0 m.1)
          e'
          (c.find_one_and_update_law (is_candidate key' amount') (λ x. x.satoshis)
            (set_status now' locked) (selections between us1)) in
      let (d, lock, pass, at) =
        picked_from key' amount' (λ e. is_at (outpoint u) e ≡ true → e.status ≡ locked) now'
          (selections between us1) us2 v still picks in
      locked_or_free key' amount' (outpoint u) d (same ∙ at) lock pass

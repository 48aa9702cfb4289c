-- ===== src/AuthCodes/OneTime.antt =====
-- services/authService.js: a code is good for one attempt.
use patch_proof_api.Base.{
  ℕ, suc, ◌+◌, ◌≤◌, ◌≡◌, refl, sym, ap, ◌∙◌, subst, Bool, List, [], ◌∷◌, ◌++◌, Option, none, some,
  arith, ◌==◌, ==_self, ==_iff, if◌then◌else◌, Bool-cases, Option-cases, inl, inr, keep, length,
}
use patch_proof_api.Mongo.{Collection, first, modify_first, drop_first}
use patch_proof_api.Mongo.Laws.{first-modify_first_self, first-append}
use patch_proof_api.AuthCodes.{
  VerificationCode, Mail, Environment, Bcrypt, is_for, put_code, request_verification,
  submit_verification, code_sent, token_for, not_found_or_expired, invalid_code, secret_missing,
}

-- At most one code for an identifier, which no unique index enforces.
abbrev pub IsSingle : ℕ → List VerificationCode → Type 0
IsSingle id cs = length (keep (is_for id) cs) ≤ 1

none-of-keep :
    {D : Type 0} (p : D → Bool) (ds : List D) → length (keep p ds) ≤ 0 → first p ds ≡ none
none-of-keep p [] h = refl
none-of-keep p (d ∷ ds) h = elim (Bool-cases (p d)) [
  | inl hit ↦
      absurd (omega (arith, subst (λ b. length (if b then d ∷ keep p ds else keep p ds) ≤ 0) hit h))
  | inr miss ↦
      rw miss (
        none-of-keep p ds (subst (λ b. length (if b then d ∷ keep p ds else keep p ds) ≤ 0) miss h))
]

first-drop_first :
    {D : Type 0} (p : D → Bool) (ds : List D)
    → length (keep p ds) ≤ 1
    → first p (drop_first p ds) ≡ none
first-drop_first p [] h = refl
first-drop_first p (d ∷ ds) h = elim (Bool-cases (p d)) [
  | inl hit ↦ rw hit (
      none-of-keep p ds
        (omega (arith, subst (λ b. length (if b then d ∷ keep p ds else keep p ds) ≤ 1) hit h)))
  | inr miss ↦ rw miss (
      rw miss (
        first-drop_first p ds
          (subst (λ b. length (if b then d ∷ keep p ds else keep p ds) ≤ 1) miss h)))
]

keep-modify_first :
    {D : Type 0} (p q : D → Bool) (f : D → D) (ds : List D)
    → ((d : D) → q (f d) ≡ q d)
    → length (keep q (modify_first p f ds)) ≡ length (keep q ds)
keep-modify_first p q f [] h = refl
keep-modify_first p q f (d ∷ ds) h = elim (Bool-cases (p d)) [
  | inl hit ↦ rw hit (ground (arith, h d))
  | inr miss ↦ rw miss (elim (Bool-cases (q d)) [
    | inl in_q ↦ rw in_q (ap suc (keep-modify_first p q f ds h))
    | inr out ↦ rw out (keep-modify_first p q f ds h)
  ])
]

keep-append :
    {D : Type 0} (q : D → Bool) (ds : List D) (d : D)
    → length (keep q (ds ++ d ∷ [])) ≡ length (keep q ds) + (if q d then 1 else 0)
keep-append q [] d = elim (Bool-cases (q d)) [ inl h ↦ rw h refl | inr h ↦ rw h refl ]
keep-append q (e ∷ ds) d = elim (Bool-cases (q e)) [
  | inl h ↦ rw h (omega (arith, keep-append q ds d))
  | inr h ↦ rw h (keep-append q ds d)
]

keep-first : {D : Type 0} (q : D → Bool) (ds : List D) → first q ds ≡ none → length (keep q ds) ≡ 0
keep-first q [] h = refl
keep-first q (d ∷ ds) h = elim (Bool-cases (q d)) [
  | inl hit ↦ absurd (none-some (sym h ∙ rw hit refl))
  | inr miss ↦
      rw miss (keep-first q ds (subst (λ b. (if b then some d else first q ds) ≡ none) miss h))
]
  where
    none-some : none ≡ some d → ⊥
    none-some e = absurd (cc)

abbrev with_hash : ℕ → ℕ → VerificationCode → VerificationCode
with_hash now hashed c = record c { code_hash = hashed; created_at = now }

module _ (db : Collection VerificationCode) (bcrypt : Bcrypt) where
  -- Whatever the outcome of an attempt, with the right code or a wrong one, the next attempt for
  -- the identifier finds no code, when there was at most one code for it before.
  submit_once :
      (has_secret : Bool) (id code code' : ℕ) (cs : List VerificationCode)
      → IsSingle id cs
      → let (r, cs') = submit_verification db bcrypt has_secret (some id) (some code) cs in
        (submit_verification db bcrypt has_secret (some id) (some code') cs').0
        ≡ not_found_or_expired
  unfolding submit_verification
  submit_once has_secret id code code' cs one = rw (db.find_one_and_delete_law (is_for id) cs) (
      rw (db.find_one_and_delete_law (is_for id) (drop_first (is_for id) cs))
        (rw (first-drop_first (is_for id) cs one) refl))

  put_code-IsSingle :
      (now id hashed other : ℕ) (cs : List VerificationCode)
      → IsSingle other cs
      → IsSingle other (put_code db bcrypt now id hashed cs)
  unfolding put_code
  put_code-IsSingle now id hashed other cs one =
      rw (db.upsert_law (is_for id) _ _ cs) (elim (Option-cases (first (is_for id) cs)) [
        | inr (c, there) ↦ rw there (
            subst (λ n. n ≤ 1) (sym (keep-modify_first (is_for id) (is_for other) _ cs (λ c. refl)))
              one)
        | inl gone ↦ rw gone (
            subst (λ n. n ≤ 1) (sym (keep-append (is_for other) cs _))
              (elim (Bool-cases (id == other)) [
                | inl same ↦ rw same (
                    subst (λ k. length (keep (is_for k) cs) + 1 ≤ 1) ((==_iff id other).0 same)
                      (omega (arith, keep-first (is_for id) cs gone)))
                | inr ne ↦ rw ne (omega arith)
              ]))
      ])

  put_code-found :
      (now id hashed : ℕ) (cs : List VerificationCode)
      → (c : VerificationCode) × (first (is_for id) (put_code db bcrypt now id hashed cs) ≡ some c)
        × (c.code_hash ≡ hashed)
  unfolding put_code
  put_code-found now id hashed cs =
      rw
        (db.upsert_law (is_for id) (with_hash now hashed)
          (record { identifier = id; code_hash = hashed; created_at = now }) cs)
        (elim (Option-cases (first (is_for id) cs)) [
          | inr (c, there) ↦ rw there (
            with_hash now hashed c,
            first-modify_first_self (is_for id) (with_hash now hashed) cs (λ d h. h)
                ∙ rw there refl,
            refl,
          )
          | inl gone ↦ rw gone (
            record { identifier = id; code_hash = hashed; created_at = now },
            first-append (is_for id) cs
                  (record { identifier = id; code_hash = hashed; created_at = now })
                ∙ rw (gone, ==_self id) refl,
            refl,
          )
        ])

  submit_found :
      (has_secret : Bool) (now id code' hashed : ℕ) (cs cs' : List VerificationCode)
      → put_code db bcrypt now id hashed cs ≡ cs'
      → (submit_verification db bcrypt has_secret (some id) (some code') cs').0 ≡ (
          if bcrypt.compare code' hashed
          then (if has_secret then token_for id else secret_missing)
          else invalid_code)
  unfolding submit_verification
  submit_found has_secret now id code' hashed cs cs' stored =
      let (c, found, same) = put_code-found now id hashed cs in
      rw (db.find_one_and_delete_law (is_for id) cs') (rw (sym stored) (rw found (rw same refl)))

  -- After a request that reaches the mail, the first attempt for the identifier is judged by the
  -- code that was sent and no other: where what is submitted compares with its hash there is a
  -- token for the identifier, or an error where no secret is set to sign it with, and otherwise the
  -- code is invalid. Whatever the outcome, that attempt uses the code up: where at most one code
  -- was stored for the identifier before the request, the next attempt finds none, with whatever
  -- code.
  pub request-submit :
      (env : Environment) (is_ready has_secret : Bool) (mail : Mail)
      (now code salt id code' code'' : ℕ) (dev : Option ℕ) (cs cs' : List VerificationCode)
      → request_verification db bcrypt env is_ready mail now code salt (some id) cs
        ≡ (code_sent dev, cs')
      → IsSingle id cs
      → let (r, after) = submit_verification db bcrypt has_secret (some id) (some code') cs' in
        (r ≡ (
          if bcrypt.compare code' (bcrypt.hash code salt)
          then (if has_secret then token_for id else secret_missing)
          else invalid_code))
        × ((submit_verification db bcrypt has_secret (some id) (some code'') after).0
            ≡ not_found_or_expired)
  unfolding request_verification
  request-submit env is_ready has_secret mail now code salt id code' code'' dev cs cs' sent one =
      let stored : put_code db bcrypt now id (bcrypt.hash code salt) cs ≡ cs' = ground arith in
      let single : IsSingle id cs' =
        subst (IsSingle id) stored (put_code-IsSingle now id (bcrypt.hash code salt) id cs one) in
      (
        submit_found has_secret now id code' (bcrypt.hash code salt) cs cs' stored,
        submit_once has_secret id code' code'' cs' single,
      )

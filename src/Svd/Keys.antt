-- ===== src/Svd/Keys.antt =====
-- services/svdService.js, clients/svdSdk.js and services/bsvSelfTest.js: the keys of one session,
-- which the client derives from its private key and the server from the public one. The curve is
-- the library's: a parameter with the laws of a group that a point of order `n` generates.
use patch_proof_api.Base.{
  ℕ, ◌+◌, ◌*◌, ◌%◌, ◌≡◌, ◌≢◌, sym, ap, ◌∙◌, Bool, true, not, Option, none, some, arith, ◌==◌,
  if◌then◌else◌, subst,
}

pub record Curve : Type 1 where
  pub Point : Type 0
  pub add : Point → Point → Point
  pub mul : ℕ → Point → Point
  pub g : Point
  pub n : ℕ
  pub is_infinity : Point → Bool
  pub x_of : Point → ℕ
  pub add_law : (a b : ℕ) → mul (a + b) g ≡ add (mul a g) (mul b g)
  pub mod_law : (a : ℕ) → mul (a % n) g ≡ mul a g
  pub mul_law : (a b : ℕ) → mul a (mul b g) ≡ mul (a * b) g

module _ (c : Curve) where
  open c use {Point, add, mul, g, n}

  -- `publicKey` of a private key
  abbrev pub public_key : ℕ → Point
  public_key k = mul k g

  -- `deriveV2FromPMC`, with `h` the digest of the challenge as a number.
  unfoldable pub derive_v2_from_pmc : Point → ℕ → Point
  derive_v2_from_pmc pmc h = add pmc (mul h g)

  -- `deriveP2FromPMS`, and `_deriveP2cFromPmcWIF` of the client: `none` where the scalar is zero.
  unfoldable pub derive_p2 : ℕ → ℕ → Option ℕ
  derive_p2 secret h = let p2 = (secret + h) % n in if p2 == 0 then none else some p2

  -- `deriveSharedSecret`: a hash of the common point, of the two public keys and of the challenge.
  unfoldable pub derive_shared_secret : (ℕ → ℕ → ℕ) → ℕ → Point → ℕ → Option ℕ
  derive_shared_secret hkdf p2s v2c salt =
      if c.is_infinity (mul p2s v2c) then none else some (hkdf (c.x_of (mul p2s v2c)) salt)

  derived : (secret h k : ℕ) → derive_p2 secret h ≡ some k → k ≡ (secret + h) % n
  unfolding derive_p2
  derived secret h k e = ground arith

  -- Client and server derive one key pair from a challenge: the public key that the server derives
  -- from the client's public key is that of the private key that the client derives.
  pub derived_keys_agree :
      (pmc h p2c : ℕ)
      → derive_p2 pmc h ≡ some p2c
      → public_key p2c ≡ derive_v2_from_pmc (public_key pmc) h
  unfolding derive_v2_from_pmc
  derived_keys_agree pmc h p2c e =
      ap (λ k. mul k g) (derived pmc h p2c e) ∙ (c.mod_law (pmc + h) ∙ c.add_law pmc h)

  common :
      (a b k m h : ℕ)
      → derive_p2 a h ≡ some k
      → derive_p2 b h ≡ some m
      → mul k (derive_v2_from_pmc (public_key b) h) ≡ mul (k * m) g
  common a b k m h ea eb = ap (λ p. mul k p) (sym (derived_keys_agree b h m eb)) ∙ c.mul_law k m

  -- The two parties have one secret. What the server derives from its private key and the client's
  -- public key, the client can derive from its own private key and the server's public key.
  pub shared_secrets_agree :
      (hkdf : ℕ → ℕ → ℕ) (pms pmc h p2s p2c salt : ℕ)
      → derive_p2 pms h ≡ some p2s
      → derive_p2 pmc h ≡ some p2c
      → derive_shared_secret hkdf p2s (derive_v2_from_pmc (public_key pmc) h) salt
        ≡ derive_shared_secret hkdf p2c (derive_v2_from_pmc (public_key pms) h) salt
  unfolding derive_shared_secret
  shared_secrets_agree hkdf pms pmc h p2s p2c salt es ec =
      ap (λ p. if c.is_infinity p then none else some (hkdf (c.x_of p) salt))
        (common pms pmc p2s p2c h es ec
          ∙ (ap (λ k. mul k g) (commutes p2s p2c) ∙ sym (common pmc pms p2c p2s h ec es)))
    where
      commutes : (a b : ℕ) → a * b ≡ b * a
      commutes a b = grind arith

-- ECDSA of the library: what is signed by a key verifies under its public key.
pub record Ecdsa (c : Curve) : Type 0 where
  pub sign : ℕ → ℕ → ℕ
  pub verify : ℕ → ℕ → c.Point → Bool
  pub is_low_s : ℕ → Bool
  pub to_der : ℕ → ℕ
  pub from_der : ℕ → Option ℕ
  pub verify_law : (hash key : ℕ) → verify hash (sign hash key) (c.mul key c.g) ≡ true
  pub low_s_law : (hash key : ℕ) → is_low_s (sign hash key) ≡ true
  pub der_law : (sig : ℕ) → from_der (to_der sig) ≡ some sig

-- `runBsvSelfTest`, up to what it throws.
pub data SelfTest : Type 0 where
  passed verification_failed invalid_point : SelfTest

module _ (c : Curve) (e : Ecdsa c) where
  -- From the keys `pms` and `pmc`, which the code derives from fixed seeds; the curve's order does
  -- not divide the sums with the digest `h` of its fixed message.
  unfoldable pub run_bsv_self_test : ℕ → ℕ → ℕ → ℕ → SelfTest
  unfolding derive_v2_from_pmc
  run_bsv_self_test pms pmc hash h =
      let v2c = derive_v2_from_pmc c (public_key c pmc) h in
      if not (e.verify hash (e.sign hash ((pmc + h) % c.n)) v2c)
      then verification_failed
      else if c.is_infinity (c.mul ((pms + h) % c.n) v2c)
      then invalid_point
      else passed

  -- With a library that meets its laws, the self-test never fails by its signature.
  self_test_verifies : (pms pmc hash h : ℕ) → run_bsv_self_test pms pmc hash h ≢ verification_failed
  unfolding run_bsv_self_test
  self_test_verifies pms pmc hash h =
      let key : public_key c ((pmc + h) % c.n) ≡ c.add (c.mul pmc c.g) (c.mul h c.g) =
        c.mod_law (pmc + h) ∙ c.add_law pmc h in
      let good : e.verify hash (e.sign hash ((pmc + h) % c.n)) (c.add (c.mul pmc c.g) (c.mul h c.g))
          ≡ true =
        subst (λ p. e.verify hash (e.sign hash ((pmc + h) % c.n)) p ≡ true) key
          (e.verify_law hash ((pmc + h) % c.n)) in
      ground arith

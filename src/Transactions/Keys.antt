-- ===== src/Transactions/Keys.antt =====
-- services/blockchainService.js: private keys from what a caller gives, the key of an issuer, and
-- signatures of hashes. Keys, and the bytes of a key, are numbers; the library bsv is a parameter.
use patch_proof_api.Base.{
  ℕ, zero, suc, ◌≡◌, ◌≢◌, refl, ap, sym, ◌∙◌, Bool, true, false, Option, none, some, ◌==◌, ==_iff,
  if◌then◌else◌, Bool-cases, inl, inr, Option-cases,
}
use patch_proof_api.Startup.{NodeEnv, production, is_production}

-- What `ensurePrivateKey` may be given: nothing, a key, a string, bytes, or an object with the
-- fields `privateKey`, `priv` and `keyPair.privKey`.
pub data Source : Type 0 where
  nothing : Source
  private_key text buffer : ℕ → Source
  object : Source → Source → Option ℕ → Source

pub data KeyResult : Type 0 where
  key : ℕ → KeyResult
  not_provided wif_refused unsupported : KeyResult

-- `fromWIF`, `none` where it throws, and the key of 32 bytes.
pub record KeyFormats : Type 0 where
  pub from_wif : ℕ → Option ℕ
  pub from_buffer : ℕ → ℕ

abbrev of_wif : Option ℕ → KeyResult
of_wif none = unsupported
of_wif (some k) = key k

abbrev of_pair : (ℕ → ℕ) → Option ℕ → KeyResult
of_pair f none = unsupported
of_pair f (some bytes) = key (f bytes)

-- The object's branches after those for the two fields that are keys already: a field that is there
-- is tried for good, `priv` first.
abbrev deeper : (ℕ → ℕ) → Source → Source → Option ℕ → KeyResult → KeyResult → KeyResult
deeper f nothing nothing pair r q = of_pair f pair
deeper f (private_key k) nothing pair r q = r
deeper f (text s) nothing pair r q = r
deeper f (buffer b) nothing pair r q = r
deeper f (object a b c) nothing pair r q = r
deeper f pk (private_key k) pair r q = q
deeper f pk (text s) pair r q = q
deeper f pk (buffer b) pair r q = q
deeper f pk (object a b c) pair r q = q

abbrev of_object : (ℕ → ℕ) → Source → Source → Option ℕ → KeyResult → KeyResult → KeyResult
of_object f (private_key k) priv pair r q = key k
of_object f nothing (private_key k) pair r q = key k
of_object f (text s) (private_key k) pair r q = key k
of_object f (buffer b) (private_key k) pair r q = key k
of_object f (object a b c) (private_key k) pair r q = key k
of_object f pk priv pair r q = deeper f pk priv pair r q

unfoldable pub ensure_private_key : NodeEnv → KeyFormats → Source → KeyResult
ensure_private_key env f nothing = not_provided
ensure_private_key env f (private_key k) = key k
ensure_private_key env f (text s) = if is_production env then wif_refused else of_wif (f.from_wif s)
ensure_private_key env f (buffer b) = key (f.from_buffer b)
ensure_private_key env f (object pk priv pair) =
    of_object f.from_buffer pk priv pair (ensure_private_key env f pk)
      (ensure_private_key env f priv)

-- In production no key comes from a string in wallet import format: what is found, at any depth of
-- the object that is given, does not depend on how such strings are decoded.
pub production_ignores_wif :
    (f g : KeyFormats) (src : Source)
    → f.from_buffer ≡ g.from_buffer
    → ensure_private_key production f src ≡ ensure_private_key production g src
unfolding ensure_private_key
production_ignores_wif f g nothing e = refl
production_ignores_wif f g (private_key k) e = refl
production_ignores_wif f g (text s) e = refl
production_ignores_wif f g (buffer b) e = ap (λ h. key (h b)) e
production_ignores_wif f g (object pk priv pair) e =
    rw (e, production_ignores_wif f g pk e, production_ignores_wif f g priv e) refl

-- ECDSA of bsv over these: `sign` with the default byte order, `verify` with `little`, and what is
-- parsed, `none` where it throws.
pub record Ecdsa : Type 0 where
  pub sign : ℕ → ℕ → ℕ
  pub from_der : ℕ → Option ℕ
  pub public_key : ℕ → Option ℕ
  pub verify_little : ℕ → ℕ → ℕ → Bool

pub data SignResult : Type 0 where
  signed : ℕ → SignResult
  hash_missing key_missing : SignResult
  key_error : KeyResult → SignResult

abbrev sign_with : Ecdsa → ℕ → KeyResult → SignResult
sign_with c h (key k) = signed (c.sign h k)
sign_with c h not_provided = key_error not_provided
sign_with c h wif_refused = key_error wif_refused
sign_with c h unsupported = key_error unsupported

-- `signHash`: the hash and the key are each missing or there.
unfoldable pub sign_hash : NodeEnv → KeyFormats → Ecdsa → Option ℕ → Source → SignResult
sign_hash env f c none src = hash_missing
sign_hash env f c (some h) nothing = key_missing
sign_hash env f c (some h) (private_key k) = signed (c.sign h k)
sign_hash env f c (some h) (text s) = sign_with c h (ensure_private_key env f (text s))
sign_hash env f c (some h) (buffer b) = sign_with c h (ensure_private_key env f (buffer b))
sign_hash env f c (some h) (object a b k) = sign_with c h (ensure_private_key env f (object a b k))

abbrev verified : Ecdsa → ℕ → Option ℕ → Option ℕ → Bool
verified c h none p = false
verified c h (some s) none = false
verified c h (some s) (some p) = c.verify_little h s p

-- `verifySignature`: what does not parse does not verify.
unfoldable pub verify_signature : Ecdsa → ℕ → ℕ → ℕ → Bool
verify_signature c h signature pub_key = verified c h (c.from_der signature) (c.public_key pub_key)

-- The parts of `deriveIssuerChildKey`: the child of an extended key, `none` where it throws, the
-- HMAC of a seed, and the hash with which a digest of 0 is replaced.
pub record Derivation : Type 0 where
  pub child : ℕ → ℕ → Option ℕ
  pub hmac : ℕ → ℕ → ℕ
  pub rehash : ℕ → ℕ

-- `while (d.equals(Buffer.alloc(32)))`, with so many rounds at most.
unfoldable pub nonzero : Derivation → ℕ → ℕ → Option ℕ
nonzero c zero d = none
nonzero c (suc rounds) d =
    let again = nonzero c rounds (c.rehash d) in if d == 0 then again else some d

abbrev or_secret : Option ℕ → Option ℕ → ℕ → ℕ
or_secret (some s) master default = s
or_secret none (some m) default = m
or_secret none none default = default

abbrev or_seeded : Option ℕ → Option ℕ → Option ℕ
or_seeded (some k) seeded = some k
or_seeded none seeded = seeded

abbrev child_of : Derivation → Option ℕ → ℕ → Option ℕ
child_of c none uid = none
child_of c (some xprv) uid = c.child xprv uid

-- The key for a patch: of the extended key if there is one and it works, else of the seed, the
-- master secret or the text that is built in.
unfoldable pub derive_issuer_child_key :
    Derivation → ℕ → Option ℕ → Option ℕ → Option ℕ → ℕ → ℕ → Option ℕ
unfolding nonzero
derive_issuer_child_key c rounds xprv seed master default uid =
    or_seeded (child_of c xprv uid) (nonzero c rounds (c.hmac (or_secret seed master default) uid))

-- Two rounds give a key: if the hash of the digest 0 is not 0, the derivation of a key from any of
-- the sources ends with a key, after two tests of the loop at most.
derive_issuer_child_key-ends :
    (c : Derivation) (xprv seed master : Option ℕ) (default uid : ℕ)
    → c.rehash 0 ≢ 0
    → (k : ℕ) × (derive_issuer_child_key c 2 xprv seed master default uid ≡ some k)
unfolding derive_issuer_child_key nonzero
derive_issuer_child_key-ends c xprv seed master default uid other =
    let d : ℕ = c.hmac (or_secret seed master default) uid in
    elim (Option-cases (child_of c xprv uid)) [
      | inr (k, child) ↦ (k, rw child refl)
      | inl no_child ↦ elim (Bool-cases (d == 0)) [
        | inr other_digest ↦ (d, rw (no_child, other_digest) refl)
        | inl zero_digest ↦ (c.rehash d, rw (no_child, zero_digest, replaced d zero_digest) refl)
      ]
    ]
  where
    replaced : (d : ℕ) → (d == 0) ≡ true → (c.rehash d == 0) ≡ false
    replaced d z = elim (Bool-cases (c.rehash d == 0)) [
      | inr fine ↦ fine
      | inl bad ↦
          absurd (other (ap c.rehash (sym ((==_iff d 0).0 z)) ∙ (==_iff (c.rehash d) 0).0 bad))
    ]

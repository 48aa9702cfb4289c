-- ===== src/Svd/Tests.antt =====
-- Runs of services/svdService.js, and the theorems at these.
use patch_proof_api.Base.{
  ℕ, zero, ==_self, ◌+◌, false, suc, ◌*◌, ◌%◌, ◌∙◌, ◌≡◌, ◌≢◌, refl, true, List, [], ◌∷◌, none, some,
  arith, ◌==◌, leb,
}
use patch_proof_api.Mongo.{Collection}
use patch_proof_api.Mongo.InMemory.{in_memory}
use patch_proof_api.Redis.{table, Table}
use patch_proof_api.Svd.{
  Registration, Crypto, Service, Token, ok, begin, complete, complete_with, add_if_not_exists,
  register_pmc, challenge_key,
}
use patch_proof_api.Svd.Attested.{complete-Attested, Attested}
use patch_proof_api.Svd.Replay.{replay_refused, begins}
use patch_proof_api.Svd.Keys.{
  Curve, Ecdsa, derive_p2, derive_v2_from_pmc, derive_shared_secret, public_key,
  shared_secrets_agree,
}
use patch_proof_api.Svd.Sdk
use patch_proof_api.Svd.Sdk.{login, login_from}
use patch_proof_api.Svd.Login.{Schedule, service_server, login_never_retries}
use patch_proof_api.Svd.Honest.{Encoding, crypto_of, client_of}
use patch_proof_api.Svd.Takeover.{last_key_logs_in}

-- A signature of a challenge by a key is their sum.
abbrev crypto : Crypto
crypto = record {
  sha256 = λ m. m + 1;
  is_pmc = λ k. true;
  from_der = λ d. some d;
  is_low_s = λ s. leb s 1000;
  verify = λ k m s. s == k + m;
  proof = λ k m u. some (k + m + u);
}

abbrev db : Collection Registration
db = in_memory Registration

abbrev users : List Registration
users = record { user_id = 4; pmc = some 30 } ∷ []

abbrev service : Service
service = record {
  is_ready = true;
  has_key = true;
  replay_ready = true;
  challenge_ready = true;
  challenge_ttl = 180;
}

abbrev empty : Table
empty k = none

abbrev token : Token
token = record { sub = 4; jti = 501; svd_proof = 534 }

abbrev begun : Table
begun = (begin table crypto db service 1000 4 500 users empty).1

completed : (complete table crypto db service 2000 4 500 530 users begun).0 ≡ ok token
unfolding begin complete complete_with add_if_not_exists
completed = refl

complete-Attested_example :
    Attested table crypto db 4 500 530 (some 30) token
    × (table.get 2000 (challenge_key 4) begun ≡ some 500)
complete-Attested_example =
    complete-Attested table crypto db service 2000 4 500 530 users token begun completed

replay_refused_example :
    (complete table crypto db service 9000 4 500 530 users (
      begins table crypto db service users
        ((3000, 4, 500) ∷ [])
        (complete table crypto db service 2000 4 500 530 users begun).1)).0
    ≢ ok token
replay_refused_example =
    replay_refused table crypto db service 2000 4 500 530 users token begun ((3000, 4, 500) ∷ [])
      9000 4 500 530 users token completed refl (omega arith)

-- The numbers below 97 under addition, as a curve.
mul-mod_inner : (a b : ℕ) → a * (b % 97) % 97 ≡ a * b % 97
mul-mod_inner zero b = omega arith
mul-mod_inner (suc a) b = omega (arith, mul-mod_inner a b)

add-mul : (a b : ℕ) → (a + b) * 1 % 97 ≡ (a * 1 % 97 + b * 1 % 97) % 97
add-mul a b = omega arith

mod-mul : (a : ℕ) → a % 97 * 1 % 97 ≡ a * 1 % 97
mod-mul a = omega arith

mul-mul : (a b : ℕ) → a * (b * 1 % 97) % 97 ≡ a * b * 1 % 97
mul-mul a b = mul-mod_inner a (b * 1) ∙ grind arith

abbrev curve : Curve
curve = record {
  Point = ℕ;
  add = λ p q. (p + q) % 97;
  mul = λ k p. k * p % 97;
  g = 1;
  n = 97;
  is_infinity = λ p. p == 0;
  x_of = λ p. p;
  add_law = add-mul;
  mod_law = mod-mul;
  mul_law = mul-mul;
}

add-eq_self : (hash key : ℕ) → (hash + key * 1 % 97 == hash + key * 1 % 97) ≡ true
add-eq_self hash key = ==_self (hash + key * 1 % 97)

abbrev ecdsa : Ecdsa curve
ecdsa = record {
  sign = λ hash key. hash + key * 1 % 97;
  verify = λ hash sig p. sig == hash + p;
  is_low_s = λ sig. true;
  to_der = λ sig. sig;
  from_der = λ der. some der;
  verify_law = add-eq_self;
  low_s_law = λ hash key. refl;
  der_law = λ sig. refl;
}

abbrev encoding : Encoding curve
encoding = record {
  digest = λ m. m + 1;
  decode = λ p. p;
  is_pmc = λ p. true;
  salt = λ pmc m. pmc + m;
  hkdf = λ x salt. x + salt;
  jwt_proof = λ user digest secret. user + digest + secret;
}

abbrev schedule : Schedule
schedule = record {
  begins_at = λ i. i * 1000;
  completes_at = λ i. i * 1000 + 500;
  challenge = λ i. i * 500;
}

shared_secrets_agree_example :
    derive_shared_secret curve
      (λ x salt. x + salt)
      21
      (derive_v2_from_pmc curve (public_key curve 30) 501)
      530
    ≡ derive_shared_secret curve
        (λ x salt. x + salt)
        46
        (derive_v2_from_pmc curve (public_key curve 5) 501)
        530
unfolding derive_p2
shared_secrets_agree_example =
    shared_secrets_agree curve (λ x salt. x + salt) 5 30 501 21 46 530 refl refl

login_never_retries_example :
    login_from
      (service_server table crypto db service 4 users schedule)
      (client_of curve ecdsa encoding 30 (λ i. false) 3)
      3
      1
      begun
    ≡ login_from
        (service_server table crypto db service 4 users schedule)
        (client_of curve ecdsa encoding 30 (λ i. false) 3)
        1
        1
        begun
login_never_retries_example =
    login_never_retries table crypto db service 4 users schedule
      (client_of curve ecdsa encoding 30 (λ i. false) 3) 2 1 begun

-- The record of user 4 holds the key 30; a client with the private key 31 registers its own.
last_key_logs_in_example :
    (login
      (service_server table
        (crypto_of curve ecdsa encoding 5)
        db
        service
        4
        (register_pmc db (crypto_of curve ecdsa encoding 5) 4 31 users).1
        schedule)
      (client_of curve ecdsa encoding 31 (λ i. false) 2)
      empty).0
    ≡ Sdk.ok (record { sub = 4; jti = 501; svd_proof = 1053 })
unfolding derive_p2 derive_v2_from_pmc derive_shared_secret
last_key_logs_in_example =
    last_key_logs_in curve ecdsa encoding table db service users schedule 5 31 31 4 1 47 1053
      (λ i. false) empty refl refl refl refl refl refl refl refl refl refl (omega arith)

-- ===== src/Signer/Tests.antt =====
-- Runs of the signer of the host, and the theorems at these.
use patch_proof_api.Base.{ℕ, ◌+◌, ◌≡◌, refl, true, false, List, [], ◌∷◌, map, some, length, ltb}
use patch_proof_api.Middleware.{api_key_middleware}
use patch_proof_api.Retry.{Kms, returned, sign_batch}
use patch_proof_api.Transactions.{
  data_out, Transaction, Funding, Signature, Bsv, SigningHash, built, input_of,
  build_op_return_transaction, apply_signatures,
}
use patch_proof_api.Signer.{
  Signer, signatures, unauthorized, sign_route, response_of, to_sign, sign_all,
}
use patch_proof_api.Signer.Batch.{body_of}
use patch_proof_api.Signer.Built.{built-signed, signed_inputs}

-- A hash is less than 10, and its signature by the key 7 is their sum.
abbrev signer : Signer
signer = record {
  is_hash = λ h. ltb h 10;
  sign = λ h. some (record { signature_hex = h + 7; pub_key_hex = 7 });
}

abbrev signature : ℕ → Signature
signature h = record { signature_hex = h + 7; pub_key_hex = 7 }

-- The hash of an input is its number.
abbrev bsv : Bsv
bsv = record {
  fee = λ tx. length tx.inputs;
  sighash = λ tx i. i;
  script_of = λ g. some (g.signature_hex + g.pub_key_hex);
  serializes = λ tx. true;
}

abbrev kms : Kms
kms = record { is_ready = true; has_endpoint = true; is_mock = false; max_attempts = 3 }

abbrev wallet : List Funding
wallet =
    record { txid = 1; vout = 0; satoshis = 40; key_identifier = 7 }
    ∷ record { txid = 2; vout = 1; satoshis = 60; key_identifier = 7 }
    ∷ []

abbrev tx : Transaction
tx = record {
  inputs = map input_of wallet;
  outputs = data_out 5 ∷ [];
  change = 9;
  fee_per_kb = 500;
}

abbrev hashes : List SigningHash
hashes =
    record { key_identifier = 7; sighash = 0 } ∷ record { key_identifier = 7; sighash = 1 } ∷ []

built_two : build_op_return_transaction bsv wallet 5 9 500 ≡ built tx hashes
unfolding build_op_return_transaction
built_two = refl

same_key : api_key_middleware (1 ∷ []) (1 ∷ []) ≡ true
unfolding api_key_middleware
same_key = refl

built-signed_example :
    (gs : List Signature) × (sign_batch kms
        (λ i. response_of (sign_route signer (1 ∷ []) (1 ∷ []) (body_of hashes)))
        hashes
      ≡ (returned gs, 1))
    × (apply_signatures bsv gs tx.inputs
        ≡ some (
            signed_inputs bsv signer signature
              (λ h. h + 7 + 7)
              (λ h. refl)
              (λ h. refl)
              tx
              0
              wallet))
built-signed_example =
    built-signed bsv signer signature (λ h. h + 7 + 7) (λ h. refl) (λ h. refl) kms (1 ∷ []) (1 ∷ [])
      wallet 5 9 500 tx hashes built_two (refl, (refl, tt)) same_key refl refl refl

-- The first of two requests is not well formed: the signature of the second is the first.
abbrev mixed : List SigningHash
mixed =
    record { key_identifier = 7; sighash = 12 } ∷ record { key_identifier = 7; sighash = 1 } ∷ []

moved_up : sign_route signer (1 ∷ []) (1 ∷ []) (body_of mixed) ≡ signatures (signature 1 ∷ [])
unfolding sign_route to_sign sign_all api_key_middleware
moved_up = refl

refused : sign_route signer [] [] (body_of mixed) ≡ unauthorized
unfolding sign_route api_key_middleware
refused = refl

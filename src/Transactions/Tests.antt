-- ===== src/Transactions/Tests.antt =====
-- Runs of services/blockchainService.js, and the theorems at these.
use patch_proof_api.Base.{◌+◌, ◌≡◌, refl, false, true, List, [], ◌∷◌, map, none, some, length}
use patch_proof_api.Retry.{Unspent}
use patch_proof_api.Transactions.{
  Input, data_out, Transaction, Funding, Signature, Bsv, SigningHash, built, input_of,
  build_op_return_transaction, apply_signatures, sweep_address,
}
use patch_proof_api.Startup.{production}
use patch_proof_api.Transactions.Keys.{
  nothing, text, object, wif_refused, ensure_private_key, production_ignores_wif,
}
use patch_proof_api.Transactions.Shape.{sweep-Conserved, Conserved}

-- A satoshi for each input; the hash of an input is its number.
abbrev bsv : Bsv
bsv = record {
  fee = λ tx. length tx.inputs;
  sighash = λ tx i. i;
  script_of = λ g. some (g.signature_hex + g.pub_key_hex);
  serializes = λ tx. true;
}

abbrev wallet : List Funding
wallet =
    record { txid = 1; vout = 0; satoshis = 40; key_identifier = 7 }
    ∷ record { txid = 2; vout = 1; satoshis = 60; key_identifier = 8 }
    ∷ []

abbrev tx : Transaction
tx = record {
  inputs = map input_of wallet;
  outputs = data_out 5 ∷ [];
  change = 9;
  fee_per_kb = 500;
}

abbrev hashes : List SigningHash
hashes =
    record { key_identifier = 7; sighash = 0 } ∷ record { key_identifier = 8; sighash = 1 } ∷ []

build_two : build_op_return_transaction bsv wallet 5 9 500 ≡ built tx hashes
unfolding build_op_return_transaction
build_two = refl

abbrev one_signature : List Signature
one_signature = record { signature_hex = 3; pub_key_hex = 4 } ∷ []

abbrev half_signed : List Input
half_signed =
    record { txid = 1; vout = 0; satoshis = 40; script_sig = some 7 }
    ∷ record { txid = 2; vout = 1; satoshis = 60; script_sig = none }
    ∷ []

sign_one : apply_signatures bsv one_signature tx.inputs ≡ some half_signed
unfolding apply_signatures
sign_one = refl

abbrev unspent : List Unspent
unspent = record { tx_hash = 1; tx_pos = 0; value = 900; height = 3 } ∷ []

sweep-Conserved_example :
    Conserved bsv false 9 500 unspent
      (sweep_address bsv false 9 500 (some one_signature) (some 77) unspent)
sweep-Conserved_example = sweep-Conserved bsv false 9 500 (some one_signature) (some 77) unspent

-- An object whose key is a string, and two ways to decode strings.
production_ignores_wif_example :
    ensure_private_key production
      (record { from_wif = λ s. some 1; from_buffer = λ b. b })
      (object (text 4) nothing (some 5))
    ≡ ensure_private_key production
        (record { from_wif = λ s. none; from_buffer = λ b. b })
        (object (text 4) nothing (some 5))
production_ignores_wif_example =
    production_ignores_wif (record { from_wif = λ s. some 1; from_buffer = λ b. b })
      (record { from_wif = λ s. none; from_buffer = λ b. b }) (object (text 4) nothing (some 5))
      refl

refuses_wif :
    ensure_private_key production
      (record { from_wif = λ s. some 1; from_buffer = λ b. b })
      (object (text 4) nothing (some 5))
    ≡ wif_refused
unfolding ensure_private_key
refuses_wif = refl

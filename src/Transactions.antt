-- ===== src/Transactions.antt =====
-- services/blockchainService.js: transactions are put together, signed and swept. The library bsv
-- is a parameter: the fee of a transaction, its hash for signing, the parsing of signatures, and
-- whether `serialize` accepts a transaction.
pub mod Signed
pub mod Shape
pub mod Keys
pub mod Tests
use patch_proof_api.Base.{
  ℕ, zero, suc, ◌+◌, ◌-◌, Bool, true, false, List, [], ◌∷◌, ◌++◌, map, Option, none, some, ltb, leb,
  length, not, if◌then◌else◌,
}
use patch_proof_api.Retry.{Unspent, total}

-- An input spends an output and has a script once it is signed.
pub record Input : Type 0 where
  pub txid : ℕ
  pub vout : ℕ
  pub satoshis : ℕ
  pub script_sig : Option ℕ

pub data Output : Type 0 where
  data_out : ℕ → Output
  pays : ℕ → ℕ → Output

pub record Transaction : Type 0 where
  pub inputs : List Input
  pub outputs : List Output
  pub change : ℕ
  pub fee_per_kb : ℕ

-- An output of the pool that pays, with the key that signs for it.
pub record Funding : Type 0 where
  pub txid : ℕ
  pub vout : ℕ
  pub satoshis : ℕ
  pub key_identifier : ℕ

pub record Signature : Type 0 where
  pub signature_hex : ℕ
  pub pub_key_hex : ℕ

pub record Bsv : Type 0 where
  pub fee : Transaction → ℕ
  pub sighash : Transaction → ℕ → ℕ
  pub script_of : Signature → Option ℕ
  pub serializes : Transaction → Bool

pub record SigningHash : Type 0 where
  pub key_identifier : ℕ
  pub sighash : ℕ

pub data Built : Type 0 where
  no_utxos : Built
  insufficient_funds : ℕ → ℕ → Built
  built : Transaction → List SigningHash → Built

-- `getFeePerKb`: the cached setting, then the recommendation, then the environment.
unfoldable pub get_fee_per_kb : Option ℕ → Option ℕ → ℕ → ℕ
get_fee_per_kb (some n) recommended default = n
get_fee_per_kb none (some n) default = n
get_fee_per_kb none none default = default

abbrev pub input_of : Funding → Input
input_of u = record { txid = u.txid; vout = u.vout; satoshis = u.satoshis; script_sig = none }

abbrev pub funds : List Funding → ℕ
funds [] = 0
funds (u ∷ us) = u.satoshis + funds us

module _ (bsv : Bsv) where
  -- `tx.inputs.map((input, index) => …)`
  abbrev pub signing_hashes : Transaction → ℕ → List Funding → List SigningHash
  signing_hashes tx index [] = []
  signing_hashes tx index (u ∷ us) =
      record { key_identifier = u.key_identifier; sighash = bsv.sighash tx index }
      ∷ signing_hashes tx (suc index) us

  abbrev pub op_return_of : List Funding → ℕ → ℕ → ℕ → Transaction
  op_return_of us data_ change fee_rate = record {
    inputs = map input_of us;
    outputs = data_out data_ ∷ [];
    change = change;
    fee_per_kb = fee_rate;
  }

  abbrev pub check_funds : Transaction → List Funding → Built
  check_funds tx us =
      if ltb (funds us) (bsv.fee tx)
      then insufficient_funds (funds us) (bsv.fee tx)
      else built tx (signing_hashes tx 0 us)

  unfoldable pub build_op_return_transaction : List Funding → ℕ → ℕ → ℕ → Built
  build_op_return_transaction [] data_ change fee_rate = no_utxos
  build_op_return_transaction (u ∷ us) data_ change fee_rate =
      check_funds (op_return_of (u ∷ us) data_ change fee_rate) (u ∷ us)

  abbrev pub with_script : Option ℕ → Input → Option (List Input) → Option (List Input)
  with_script none i rest = none
  with_script (some s) i none = none
  with_script (some s) i (some is) = some (record i { script_sig = some s } ∷ is)

  -- `applySignatures`: `none` where it throws, at a signature that does not parse or has no input.
  unfoldable pub apply_signatures : List Signature → List Input → Option (List Input)
  apply_signatures [] is = some is
  apply_signatures (g ∷ gs) [] = none
  apply_signatures (g ∷ gs) (i ∷ is) = with_script (bsv.script_of g) i (apply_signatures gs is)

-- The result of `broadcast` by what the client gives: text, something else, or an error.
pub data Reply : Type 0 where
  text : ℕ → Reply
  other failure : Reply

unfoldable pub broadcast : Reply → Option ℕ
broadcast (text txid) = some txid
broadcast other = none
broadcast failure = none

pub record Amounts : Type 0 where
  pub total_satoshis : ℕ
  pub estimated_fee : ℕ
  pub final_amount : ℕ

pub data SweepResult : Type 0 where
  nothing_to_sweep signing_failed serialize_failed : SweepResult
  insufficient_after_fees : ℕ → ℕ → SweepResult
  sweep_planned sweep_failed : Transaction → Amounts → SweepResult
  sweep_sent : ℕ → Transaction → Amounts → SweepResult

abbrev pub swept_input : Unspent → Input
swept_input u = record { txid = u.tx_hash; vout = u.tx_pos; satoshis = u.value; script_sig = none }

module _ (bsv : Bsv) where
  abbrev pub sweep_tx : List Unspent → ℕ → ℕ → ℕ → Transaction
  sweep_tx us to fee_rate amount = record {
    inputs = map swept_input us;
    outputs = pays to amount ∷ [];
    change = to;
    fee_per_kb = fee_rate;
  }

  abbrev sent : Transaction → Amounts → Option ℕ → SweepResult
  sent tx a none = sweep_failed tx a
  sent tx a (some txid) = sweep_sent txid tx a

  -- The fee that is reported is that of the signed transaction.
  abbrev amounts : ℕ → ℕ → Transaction → Amounts
  amounts sum final tx = record {
    total_satoshis = sum;
    estimated_fee = bsv.fee tx;
    final_amount = final;
  }

  abbrev pub finish_sweep :
      Bool → Transaction → ℕ → ℕ → Option (List Input) → Option ℕ → SweepResult
  finish_sweep dry_run tx sum final none txid = signing_failed
  finish_sweep dry_run tx sum final (some is) txid =
      let signed = record tx { inputs = is } in
      if not (bsv.serializes signed)
      then serialize_failed
      else if dry_run
      then sweep_planned signed (amounts sum final signed)
      else sent signed (amounts sum final signed) txid

  -- From the fee of the first draft on; the KMS answers `none` where `signBatch` throws.
  abbrev pub sign_swept : Transaction → Option (List Signature) → Option (List Input)
  sign_swept tx none = none
  sign_swept tx (some gs) = apply_signatures bsv gs tx.inputs

  unfoldable pub sweep_address :
      Bool → ℕ → ℕ → Option (List Signature) → Option ℕ → List Unspent → SweepResult
  sweep_address dry_run to fee_rate signatures txid [] = nothing_to_sweep
  sweep_address dry_run to fee_rate signatures txid (u ∷ us) =
      let sum = total (u ∷ us) in
      let draft_fee = bsv.fee (sweep_tx (u ∷ us) to fee_rate (sum - 1)) in
      let tx = sweep_tx (u ∷ us) to fee_rate (sum - draft_fee) in
      if leb sum draft_fee
      then insufficient_after_fees sum draft_fee
      else finish_sweep dry_run tx sum (sum - draft_fee) (sign_swept tx signatures) txid

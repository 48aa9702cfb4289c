-- ===== src/Jobs/Tests.antt =====
-- Runs of workers/broadcastWorker.js and of the recovery script, and the theorems at these.
use patch_proof_api.Base.{
  ℕ, ◌+◌, ◌-◌, ◌≤◌, ◌≡◌, ◌==◌, refl, true, false, List, [], ◌∷◌, Option, none, some,
}
use patch_proof_api.Mongo.{Collection}
use patch_proof_api.Mongo.InMemory.{in_memory}
use patch_proof_api.Samples.{driver, store, data_of}
use patch_proof_api.Records.{replica_set, get_patch_state, get_record_by_txid}
use patch_proof_api.Patches.{Crypto, Env, not_exported, not_found, verify_patch}
use patch_proof_api.Claims.Model.{ClaimIntent}
use patch_proof_api.Jobs.{Job, transfer_job, Options, next_job}
use patch_proof_api.Jobs.Requeue.{comes_back, requeues_bounded}
use patch_proof_api.Jobs.Quiet.{Event, registers, transfers, processes, fails, recovers, happens}
use patch_proof_api.Jobs.Unconfirmed.{nothing_confirmed}

abbrev claims : Collection ClaimIntent
claims = in_memory ClaimIntent

abbrev job : Job
job = record {
  name = transfer_job;
  pending_id = some 2;
  uid_tag_id = 7;
  current_txid = some 100;
  new_owner = some 60;
  data_ = data_of 7 60 1000;
  pos_intent = none;
  recover_count = 1;
}

twice : comes_back driver claims 9 true 3 (some job) ≡ 2
unfolding next_job
twice = refl

requeues_bounded_example : comes_back driver claims 9 true 3 (some job) ≤ 3 - 1
requeues_bounded_example = requeues_bounded driver claims 9 true 3 job

abbrev options : Options
options = record {
  failed_too = true;
  anchoring_too = true;
  stuck_minutes = 15;
  limit = 200;
  dry_run = false;
  requeue_too = true;
}

-- The issuer signs; its queue is on for the registration and off for the transfer.
abbrev crypto : Crypto
crypto = record {
  verify = λ m sig key. sig == key;
  address_of = λ k. some (k + 45);
  metadata_hash = λ m. m;
  sign = λ m. some (11, 12);
  stored_metadata = λ m. m;
}

abbrev served : Option (Option ℕ) → Env
served job = record {
  now = 2000;
  fresh_id = 20;
  job = job;
  session = replica_set;
  broadcast = λ d. not_exported;
}

abbrev events : List Event
events =
    registers (served (some (some 5))) true true 77 9 60
    ∷ transfers (served none) true 100 60 5 5
    ∷ processes replica_set 2100 job
    ∷ fails true (some 3) 2200 job
    ∷ recovers 2300 options
    ∷ []

nothing_confirmed_example :
    ((happens driver crypto claims events store).states ≡ store.states)
    × ((uid : ℕ)
        → get_patch_state driver uid store ≡ none
        → verify_patch driver crypto true uid (happens driver crypto claims events store)
          ≡ not_found)
    × ((txid : ℕ)
        → get_record_by_txid driver txid store ≡ none
        → get_record_by_txid driver txid (happens driver crypto claims events store) ≡ none)
nothing_confirmed_example = nothing_confirmed driver crypto claims events store

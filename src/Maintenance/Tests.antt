-- ===== src/Maintenance/Tests.antt =====
-- Runs of the maintenance on request: as app.js mounts it, and as the controller's own method.
use patch_proof_api.Base.{◌≡◌, refl, true, false, List, [], ◌∷◌, some}
use patch_proof_api.Mongo.{Collection}
use patch_proof_api.Mongo.InMemory.{in_memory}
use patch_proof_api.Samples.{output, config}
use patch_proof_api.Utxo.{Utxo, available, unconfirmed}
use patch_proof_api.Manager.{sweep_fails}
use patch_proof_api.Maintenance.{auto, Outside, in_progress, unanswered, trigger_maintenance}

abbrev mem : Collection Utxo
mem = in_memory Utxo

abbrev outside : Outside
outside = record {
  now = 10;
  tip = 100;
  chain = some (record { tx_hash = 1; tx_pos = 0; value = 90000; height = 90 } ∷ []);
  sweep_outcome = sweep_fails;
  is_leased = true;
  send_split = λ tx. some 77;
}

abbrev pool : List Utxo
pool = output 1 0 90000 available 1 ∷ output 3 0 50 unconfirmed 1 ∷ []

unbound :
    trigger_maintenance mem config outside false 1 auto (2 ∷ []) pool ≡ (unanswered, 2 ∷ [], pool)
unfolding trigger_maintenance
unbound = refl

busy :
    trigger_maintenance mem config outside true 1 auto (1 ∷ []) pool ≡ (in_progress, 1 ∷ [], pool)
unfolding trigger_maintenance
busy = refl

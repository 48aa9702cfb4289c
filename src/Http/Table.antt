-- ===== src/Http/Table.antt =====
-- The routes of app.js, routes/svdAuth.js, routes/svdKid.js, routes/svdCanary.js, routes/pos.js and
-- routes/internalSigner.route.js, in the order in which app.js mounts them.
use patch_proof_api.Base.{Bool, true, false, List, [], ◌∷◌, ◌++◌, if◌then◌else◌, codes}
use patch_proof_api.Http.Routes.{
  Config, Request, Layer, route, everywhere, mounted, limited, cors, waf, json, api_key,
  api_key_in_prod, jwt, signer_key, valid, Limiter, Schema, Handler, Outcome, dispatch, get, post,
  delete,
}

abbrev pub early_layers : List Layer
early_layers =
    route get (codes "/__ping") [] Handler.ping
    ∷ route get (codes "/health") [] Handler.health
    ∷ route get (codes "/ready") [] Handler.ready
    ∷ mounted (codes "/api") (limited Limiter.public_api ∷ [])
    ∷ everywhere (cors ∷ [])
    ∷ everywhere (waf ∷ [])
    ∷ everywhere (json ∷ [])
    ∷ []

-- Mounted only where it is enabled.
abbrev pub signer_layers : Bool → List Layer
signer_layers false = []
signer_layers true =
    route get (codes "/internal/signer/pubkey") (signer_key ∷ []) Handler.signer_pubkey
    ∷ route post (codes "/internal/signer/sign") (signer_key ∷ []) Handler.signer_sign
    ∷ []

abbrev pub svd_layers : List Layer
svd_layers =
    route post (codes "/api/svd/register") (valid Schema.svd_register ∷ []) Handler.svd_register
    ∷ route post (codes "/api/svd/begin") (limited Limiter.svd_begin ∷ valid Schema.svd_begin ∷ [])
        Handler.svd_begin
    ∷ route post (codes "/api/svd/complete")
        (limited Limiter.svd_complete ∷ valid Schema.svd_complete ∷ []) Handler.svd_complete
    ∷ route get (codes "/api/svd/kid") (limited Limiter.public_api ∷ []) Handler.svd_kid
    ∷ mounted (codes "/api") (api_key ∷ [])
    ∷ route get (codes "/api/svd/canary") (limited Limiter.svd_canary ∷ []) Handler.svd_canary
    ∷ route get (codes "/internal/metrics") (api_key ∷ []) Handler.internal_metrics
    ∷ []

abbrev pub patch_layers : List Layer
patch_layers =
    route post (codes "/v1/auth/request-verification")
      (limited Limiter.request_verification ∷ valid Schema.request_verification ∷ [])
      Handler.request_verification
    ∷ route post (codes "/v1/auth/submit-verification")
        (limited Limiter.submit_verification ∷ valid Schema.submit_verification ∷ [])
        Handler.submit_verification
    ∷ route post (codes "/v1/patches") (api_key_in_prod ∷ valid Schema.register_patch ∷ [])
        Handler.register_patch
    ∷ route get (codes "/v1/patches/verify/:uid_tag_id") (valid Schema.uid_param ∷ [])
        Handler.verify_patch
    ∷ route post (codes "/v1/patches/:txid/transfer-ownership")
        (jwt ∷ valid Schema.txid_param ∷ valid Schema.transfer_ownership ∷ [])
        Handler.transfer_ownership
    ∷ route get (codes "/v1/patches/pending/registration/:id") [] Handler.registration_status
    ∷ route get (codes "/v1/patches/pending/transfer/:id") [] Handler.transfer_status
    ∷ route post (codes "/v1/patches/:uid_tag_id/unlock-content")
        (api_key ∷ valid Schema.uid_param ∷ valid Schema.unlock_content ∷ []) Handler.unlock_content
    ∷ []

abbrev pub other_layers : Bool → List Layer
other_layers metrics_require_key =
    route post (codes "/v1/pos/claim-intent") [] Handler.create_claim
    ∷ route post (codes "/v1/pos/claim-approve") (api_key ∷ []) Handler.approve_claim
    ∷ route get (codes "/v1/pos/claim-status/:id") [] Handler.claim_status
    ∷ route get (codes "/v1/privacy/export") (jwt ∷ []) Handler.export_data
    ∷ route delete (codes "/v1/privacy/delete") (jwt ∷ []) Handler.delete_me
    ∷ route get (codes "/certificates/pdf") [] Handler.certificate_pdf
    ∷ route get (codes "/v1/admin/utxo-health") (api_key ∷ []) Handler.utxo_health
    ∷ route post (codes "/v1/admin/utxo-maintain") (api_key ∷ []) Handler.utxo_maintain
    ∷ route post (codes "/v1/admin/batch-anchor") (api_key ∷ []) Handler.batch_anchor
    ∷ route get (codes "/metrics") (if metrics_require_key then api_key ∷ [] else [])
        Handler.metrics
    ∷ []

unfoldable pub layers : Config → List Layer
layers c =
    early_layers
    ++ (signer_layers c.signer_enabled
        ++ (svd_layers ++ (patch_layers ++ other_layers c.metrics_require_key)))

-- The application: what becomes of a request.
unfoldable pub app : Config → Request → Outcome
unfolding layers
app c r = dispatch c r (layers c)

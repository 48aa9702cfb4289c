-- ===== src/Lib.antt =====
-- A model of the PatchProof API and the theorems that make it correct.
--
-- The program registers patches (physical tags) with their owners: a record of each registration
-- and transfer is written to MongoDB as pending, its data is broadcast in a transaction, and the
-- record is then confirmed together with the state of the patch. Around this stand the pool of
-- outputs that pay for transactions, leases in Redis, two ways to authenticate, claims at the
-- point of sale, a queue of jobs, and scripts that maintain all of these.
--
-- Files and code:
--   Base, Base/Tests, Base/Lists, Base/Text  shared names, Boolean tests, lists over the native
--     numbers, and the regular expressions on strings
--   Mongo, Mongo/Laws, Mongo/InMemory  the calls of MongoDB as a parameter, lemmas on what they
--     do, and a collection in memory that meets the laws; Redis the same for Redis
--   Samples  concrete data for the tests
--   Records  services/databaseService.js: getPatchState, createPendingRegistration, markConfirmed
--     (mark_confirmed), markFailed, revertPending and so on, under the same names in snake case;
--     Records/Model holds models/AuthenticationRecord.js and models/PatchState.js, Records/Calls
--     the histories of calls, Records/Ledger an abstract ledger of owners and Records/Refines the
--     view of the database as such a ledger
--   Utxo  services/utxoService.js, models/Utxo.js and scripts/revert-stale-locks.js
--   Lock  services/lockManager.js
--   Merkle  computeMerkleRoot and computeMerklePath of scripts/batchAnchor.js and
--     controllers/adminController.js
--   Retry  the retry loops of services/kmsSigner.js and clients/wocClient.js
--   Svd  services/svdService.js, its two caches in Redis, and routes/svdAuth.js; Svd/Keys the
--     derivations of keys and services/bsvSelfTest.js, Svd/Sdk clients/svdSdk.js, and Svd/Login,
--     Svd/Honest and Svd/Takeover the client and the service together
--   AuthCodes  services/authService.js and controllers/authController.js
--   Patches  controllers/patchController.js; Patches/Stored follows a request to its pending
--     record and the proof that this carries
--   Claims  controllers/posController.js and models/ClaimIntent.js
--   Jobs  services/jobService.js, workers/broadcastWorker.js and
--     scripts/jobs/recover-orphaned-anchors.js; Jobs/Quiet and Jobs/Unconfirmed run them with the
--     handlers of Patches
--   Manager  services/utxoManagerService.js and scripts/utxo-manager.js
--   Maintenance  triggerMaintenance of controllers/adminController.js
--   Anchoring  scripts/batchAnchor.js, and batchAnchor and getUtxoHealth of
--     controllers/adminController.js
--   Transactions  services/blockchainService.js: version 2 of the service and sweepAddress;
--     Transactions/Keys ensurePrivateKey, signHash, verifySignature and deriveIssuerChildKey
--   Middleware  middleware/jwtAuthSvd.js, apiKeyMiddleware.js, getNumber of
--     services/configService.js and getSecret of secrets.js
--   Startup  startServer of app.js up to its routes, config/db.js, validateRequiredSecrets of
--     secrets.js and the initialize of the services that startServer calls
--   Http  the rest of app.js: Http/Routes what a request passes through, Http/Table the routes
--     in their order with those of routes/, Http/Errors the error handler, Http/Limits the keys of
--     middleware/authRateLimiter.js
--   Signer  routes/internalSigner.route.js; Signer/Batch and Signer/Built run it with the client
--     of the KMS and with the construction of transactions
--   Mail  workers/emailWorker.js
--   Scripts  scripts/addUtxo.js, scripts/check-health.js and
--     scripts/migrations/backfill-utxo-keyIdentifier.js
--
-- A service is a set of functions from its arguments and what the database holds to its result
-- and what the database holds afterwards; the time, fresh ids and random tokens are arguments.
-- Handlers call the functions of the services as the code does: Patches, Claims and Jobs stand on
-- Records, Manager and Scripts stand on Utxo, Maintenance on Manager, Anchoring on Merkle, Lock
-- and Records. Where a method makes two calls of the database that others can come between, the
-- calls are functions of their own.
--
-- Parameters: MongoDB (a record of calls with their documented laws), Redis, signatures, hashes,
-- bcrypt, addresses and the elliptic curve (records of functions), the way in which Express
-- matches paths, the answers of the limiters and schemas, of the KMS, of WhatsOnChain and of the
-- broadcast (arguments): services/blockchainService.js does not export the function that would
-- broadcast a record, so that its answer is open, the missing export included; Jobs/Unconfirmed
-- takes the missing export for it. What the schema of a record keeps of metadata is a function
-- too. The hypothesis
-- that a signature verifies for one message at most stands at the theorem that needs it.
--
-- Fuel: the loops of the Merkle tree run on one unit for each leaf, and the theorem on them shows
-- that this is enough; the retry loops, the connection to the database and the login of the SDK
-- recurse on the attempts left. Numbers are unbounded; where the code subtracts, the model either
-- stays above 0 or compares sums.
--
-- Not modelled: logging, metrics, the retries of BullMQ other than as attempts one after the
-- other, static files and the PDF of a certificate, how the limiters count, hashing in
-- services/blockchainService.js, delays between attempts, the scripts that print reports or
-- create indexes, and the removal of expired documents by MongoDB.
pub mod Base
pub mod Startup
pub mod Scripts
pub mod Samples
pub mod Mongo
pub mod Records
pub mod Utxo
pub mod Redis
pub mod Lock
pub mod Merkle
pub mod Retry
pub mod Svd
pub mod Middleware
pub mod Transactions
pub mod AuthCodes
pub mod Patches
pub mod Claims
pub mod Jobs
pub mod Manager
pub mod Maintenance
pub mod Anchoring
pub mod Http
pub mod Signer
pub mod Mail

-- ===== src/AuthCodes.antt =====
-- services/authService.js, models/VerificationCode.js and controllers/authController.js: one-time
-- codes sent by mail. Identifiers and codes are numbers, and `none` is the empty string.
pub mod OneTime
pub mod Tests
use patch_proof_api.Base.{
  ℕ, Bool, true, false, ◌&&◌, not, List, Option, none, some, ◌==◌, if◌then◌else◌,
}
use patch_proof_api.Mongo.{Collection}

pub record VerificationCode : Type 0 where
  pub identifier : ℕ
  pub code_hash : ℕ
  pub created_at : ℕ

-- How the mail leaves: as a job, in the log, through the transport, or not at all.
pub data Mail : Type 0 where
  queued mocked sent unsent : Mail

pub data Environment : Type 0 where
  production test development : Environment

abbrev pub is_production : Environment → Bool
is_production production = true
is_production test = false
is_production development = false

pub data RequestResult : Type 0 where
  code_sent : Option ℕ → RequestResult
  identifier_required service_not_ready mail_failed : RequestResult

pub data SubmitResult : Type 0 where
  token_for : ℕ → SubmitResult
  not_found_or_expired invalid_code fields_required secret_missing : SubmitResult

-- `bcrypt`: `hash code salt`, and `compare code hash`.
pub record Bcrypt : Type 0 where
  pub hash : ℕ → ℕ → ℕ
  pub compare : ℕ → ℕ → Bool

abbrev pub is_for : ℕ → VerificationCode → Bool
is_for id c = c.identifier == id

-- `_sendVerificationCodeEmail` and what follows; `dev_code` is given outside production.
abbrev pub after_mail : Environment → ℕ → Mail → RequestResult
after_mail env code queued = code_sent (if is_production env then none else some code)
after_mail env code mocked = code_sent (if is_production env then none else some code)
after_mail env code sent = code_sent (if is_production env then none else some code)
after_mail env code unsent = mail_failed

module _ (db : Collection VerificationCode) (bcrypt : Bcrypt) where
  unfoldable pub put_code : ℕ → ℕ → ℕ → List VerificationCode → List VerificationCode
  put_code now id hashed =
      db.upsert (is_for id) (λ c. record c { code_hash = hashed; created_at = now })
        (record { identifier = id; code_hash = hashed; created_at = now })

  -- The code is stored before the mail is sent.
  unfoldable pub request_verification :
      Environment
      → Bool
      → Mail
      → ℕ
      → ℕ
      → ℕ
      → Option ℕ
      → List VerificationCode
      → RequestResult × List VerificationCode
  unfolding put_code
  request_verification env is_ready mail now code salt none cs = (identifier_required, cs)
  request_verification env is_ready mail now code salt (some id) cs =
      if is_production env && not is_ready
      then (service_not_ready, cs)
      else (after_mail env code mail, put_code now id (bcrypt.hash code salt) cs)

  -- `jwt.sign` throws where there is no `JWT_SECRET`.
  abbrev pub judge : Bool → ℕ → ℕ → Option VerificationCode → SubmitResult
  judge has_secret id code none = not_found_or_expired
  judge has_secret id code (some c) =
      if bcrypt.compare code c.code_hash
      then (if has_secret then token_for id else secret_missing)
      else invalid_code

  -- `findOneAndDelete` comes first, so that a wrong code uses up the document too.
  unfoldable pub submit_verification :
      Bool → Option ℕ → Option ℕ → List VerificationCode → SubmitResult × List VerificationCode
  submit_verification has_secret (some id) (some code) cs =
      let (c, cs') = db.find_one_and_delete (is_for id) cs in (judge has_secret id code c, cs')
  submit_verification has_secret (some id) none cs = (fields_required, cs)
  submit_verification has_secret none code cs = (fields_required, cs)

-- `AuthController.submitVerification`, the status of the response: 400 when Joi refuses the body,
-- and 500 from the error handler of app.js.
unfoldable pub submit_status : Bool → SubmitResult → ℕ
submit_status false r = 400
submit_status true (token_for id) = 200
submit_status true not_found_or_expired = 401
submit_status true invalid_code = 401
submit_status true fields_required = 500
submit_status true secret_missing = 500

-- `AuthController.requestVerification` reads `result.code`, which no result of the service has.
unfoldable pub request_response : Bool → RequestResult → ℕ × Option ℕ
request_response false r = (400, none)
request_response true (code_sent dev_code) = (200, none)
request_response true identifier_required = (500, none)
request_response true service_not_ready = (500, none)
request_response true mail_failed = (500, none)

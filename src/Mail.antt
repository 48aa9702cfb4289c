-- ===== src/Mail.antt =====
-- workers/emailWorker.js: the worker of the e-mail queue, how it starts and what it does with a
-- job.
pub mod Started
pub mod Tests
use patch_proof_api.Base.{
  ℕ, Bool, true, false, ◌&&◌, ◌||◌, not, List, [], ◌∷◌, Option, none, some, if◌then◌else◌, is_some,
}
use patch_proof_api.Startup.{NodeEnv, is_production}
use patch_proof_api.Startup.Urls.{has_password_escaped}

-- The settings of SMTP, whether the server accepts them, and the address of Redis.
pub record Env : Type 0 where
  pub node_env : NodeEnv
  pub smtp_host : Option ℕ
  pub smtp_user : Option ℕ
  pub smtp_pass : Option ℕ
  pub smtp_verifies : Bool
  pub redis_url : Option (List ℕ)
  pub has_redis_password : Bool

-- The transport: none, one that was verified, or one that was made and not verified.
pub data Transport : Type 0 where
  mock verified unverified : Transport

pub data Start : Type 0 where
  exits : Start
  running : Transport → Start

abbrev pub is_configured : Env → Bool
is_configured e = is_some e.smtp_host && (is_some e.smtp_user && is_some e.smtp_pass)

-- The first part of `start`: a transport that is not verified ends the process in production alone.
abbrev pub connect_smtp : Env → Start
connect_smtp e =
    if not (is_configured e)
    then running mock
    else if e.smtp_verifies
    then running verified
    else if is_production e.node_env
    then exits
    else running unverified

abbrev url_is_safe : Option (List ℕ) → Bool
url_is_safe none = false
url_is_safe (some url) = has_password_escaped url

abbrev pub is_redis_safe : Env → Bool
is_redis_safe e = url_is_safe e.redis_url || e.has_redis_password

abbrev connect_redis : Env → Transport → Start
connect_redis e t = if is_production e.node_env && not (is_redis_safe e) then exits else running t

abbrev pub then_redis : Env → Start → Start
then_redis e exits = exits
then_redis e (running t) = connect_redis e t

unfoldable pub start : Env → Start
start e = then_redis e (connect_smtp e)

-- An e-mail: who it is from and to, and the rest of it.
pub record Message : Type 0 where
  pub from : Option ℕ
  pub to : ℕ
  pub content : ℕ

pub record Job : Type 0 where
  pub to : ℕ
  pub content : ℕ

-- The result of a job, with the message that is handed to the server.
pub data Processed : Type 0 where
  mocked : Processed
  sent : ℕ → Message → Processed
  failed : Message → Processed

abbrev pub or_user : Option ℕ → Option ℕ → Option ℕ
or_user none user = user
or_user (some a) user = some a

abbrev deliver : (Message → Option ℕ) → Message → Processed
deliver send m = elim (send m) as (λ o. Processed) [ none ↦ failed m | some id ↦ sent id m ]

-- `processJob`: `send` gives the id of the message, or `none` where it throws and BullMQ tries
-- again.
unfoldable pub process_job :
    (Message → Option ℕ) → Option ℕ → Option ℕ → Transport → Job → Processed
process_job send email_from user mock j = mocked
process_job send email_from user verified j =
    deliver send (record { from = or_user email_from user; to = j.to; content = j.content })
process_job send email_from user unverified j =
    deliver send (record { from = or_user email_from user; to = j.to; content = j.content })

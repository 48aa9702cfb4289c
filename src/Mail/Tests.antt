-- ===== src/Mail/Tests.antt =====
-- Runs of the worker of the e-mail queue.
use patch_proof_api.Base.{◌≡◌, refl, true, false, none, some, codes}
use patch_proof_api.Startup.{production, development}
use patch_proof_api.Startup.Urls.{has_password_escaped}
use patch_proof_api.Mail.{
  Env, verified, unverified, mock, exits, running, start, Job, mocked, sent, process_job,
}

abbrev env : Env
env = record {
  node_env = production;
  smtp_host = some 1;
  smtp_user = some 2;
  smtp_pass = some 3;
  smtp_verifies = true;
  redis_url = some (codes "redis://h");
  has_redis_password = true;
}

runs : start env ≡ running verified
unfolding start has_password_escaped
runs = refl

runs_unverified :
    start (record env { node_env = development; smtp_verifies = false }) ≡ running unverified
unfolding start
runs_unverified = refl

stops_unverified : start (record env { smtp_verifies = false }) ≡ exits
unfolding start
stops_unverified = refl

abbrev job : Job
job = record { to = 5; content = 6 }

delivered :
    process_job (λ m. some 9) none (some 2) verified job
    ≡ sent 9 (record { from = some 2; to = 5; content = 6 })
unfolding process_job
delivered = refl

-- Without SMTP a job counts as done and no message is handed over, in production too.
dropped : process_job (λ m. some 9) none (some 2) mock job ≡ mocked
unfolding process_job
dropped = refl

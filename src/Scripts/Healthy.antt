-- ===== src/Scripts/Healthy.antt =====
-- scripts/check-health.js: when the script exits with 0.
use patch_proof_api.Base.{
  ℕ, ◌≡◌, ◌↔◌, refl, sym, ◌∙◌, subst, Bool, true, false, List, [], ◌∷◌, Option, none, some, arith,
  if◌then◌else◌, All, Bool-cases, inl, inr,
}
use patch_proof_api.Utxo.{Utxo}
use patch_proof_api.Scripts.Health.{
  Name, environment_variables, woc_client_init, mongodb_connection, utxo_pool_availability, Report,
  add_check, start, World, all_set, check_one, check_each, check_pool, check_redis,
  run_health_check, exit_code,
}

module _ (w : World) where
  -- All that the report asks for.
  abbrev pub IsHealthy : Type 0
  IsHealthy =
      (u : Utxo) × (us : List Utxo) × (all_set w.env ≡ true)
      × (w.client_starts ≡ true)
      × (w.db_connects ≡ true)
      × (w.redis_ready ≡ some true)
      × (w.available_utxos ≡ some (u ∷ us))
      × All (λ v. w.is_spent v ≡ some false) (u ∷ us)

  check_one-passes :
      (u : Utxo) (again : Report → Report) (P : Type 0) (o : Option Bool) (r : Report)
      → ((r : Report) → ((again r).passes ≡ true) ↔ ((r.passes ≡ true) × P))
      → w.is_spent u ≡ o
      → ((check_one w u again o r).passes ≡ true)
        ↔ ((r.passes ≡ true) × (w.is_spent u ≡ some false) × P)
  check_one-passes u again P none r h e = ((λ q. absurd (cc)), λ q. absurd (cc (sym e ∙ q.1)))
  check_one-passes u again P (some true) r h e =
      ((λ q. absurd (cc ((h _).0 q).0)), λ q. absurd (cc (sym e ∙ q.1)))
  check_one-passes u again P (some false) r h e =
      ((λ q. let (a, b) = (h _).0 q in (a, e, b)), λ q. (h _).1 (q.0, q.2))

  check_each-passes :
      (us : List Utxo) (r : Report)
      → ((check_each w us r).passes ≡ true)
        ↔ ((r.passes ≡ true) × All (λ v. w.is_spent v ≡ some false) us)
  unfolding check_each
  check_each-passes [] r = ((λ h. (h, tt)), λ h. h.0)
  check_each-passes (u ∷ us) r =
      let (to, from) =
        check_one-passes u (check_each w us) (All (λ v. w.is_spent v ≡ some false) us)
          (w.is_spent u) r (check_each-passes us) refl in
      ((λ h. let (a, b, c) = to h in (a, (b, c))), λ h. from (h.0, h.1.0, h.1.1))

  add_check-passes :
      (name : Name) (ok : Bool) (r : Report)
      → ((add_check name ok r).passes ≡ true) ↔ ((ok ≡ true) × (r.passes ≡ true))
  add_check-passes name true r = ((λ h. (refl, h)), λ h. h.1)
  add_check-passes name false r = ((λ h. absurd (cc)), λ h. absurd (cc))

  check_pool-passes :
      (o : Option (List Utxo)) (r : Report)
      → w.available_utxos ≡ o
      → ((check_pool w o r).passes ≡ true) ↔ (
          (r.passes ≡ true)
          × ((u : Utxo) × (us : List Utxo) × (w.available_utxos ≡ some (u ∷ us))
              × All (λ v. w.is_spent v ≡ some false) (u ∷ us)))
  unfolding check_pool
  check_pool-passes none r e = ((λ h. absurd (cc)), λ h. absurd (cc (sym e ∙ h.1.2)))
  check_pool-passes (some []) r e = ((λ h. absurd (cc)), λ h. absurd (cc (sym e ∙ h.1.2)))
  check_pool-passes (some (u ∷ us)) r e =
      let (to, from) = check_each-passes (u ∷ us) (add_check utxo_pool_availability true r) in
      (
        (λ h. let (a, b) = to h in (a, (u, us, e, b))),
        λ h. from (
          h.0,
          subst (λ l. All (λ v. w.is_spent v ≡ some false) l) (same h.1.0 h.1.1 (sym h.1.2 ∙ e))
              h.1.3,
        ),
      )
    where
      same : (v : Utxo) (vs : List Utxo) → some (v ∷ vs) ≡ some (u ∷ us) → v ∷ vs ≡ u ∷ us
      same v vs q = cc

  check_redis-passes :
      (o : Option Bool) (r : Report)
      → w.redis_ready ≡ o
      → ((check_redis w o r).passes ≡ true) ↔ ((w.redis_ready ≡ some true) × (r.passes ≡ true))
  check_redis-passes none r e = ((λ h. absurd (cc)), λ h. absurd (cc (sym e ∙ h.0)))
  check_redis-passes (some true) r e = ((λ h. (e, h)), λ h. h.1)
  check_redis-passes (some false) r e = ((λ h. absurd (cc)), λ h. absurd (cc (sym e ∙ h.0)))

  -- The first two checks, and the report of a database that is up or down.
  abbrev first_checks : Report
  first_checks =
      add_check woc_client_init w.client_starts
        (add_check environment_variables (all_set w.env) start)

  abbrev db_checks : Report
  db_checks = add_check mongodb_connection true first_checks

  first_checks-passes :
      (first_checks.passes ≡ true) ↔ ((w.client_starts ≡ true) × (all_set w.env ≡ true))
  first_checks-passes =
      let (to, from) =
        add_check-passes woc_client_init w.client_starts
          (add_check environment_variables (all_set w.env) start) in
      let (to', from') = add_check-passes environment_variables (all_set w.env) start in
      ((λ h. let (a, b) = to h in (a, (to' b).0)), λ h. from (h.0, from' (h.1, refl)))

  report_down : w.db_connects ≡ false → (run_health_check w).passes ≡ false
  unfolding run_health_check
  report_down down = simp down refl

  report_up :
      w.db_connects ≡ true
      → (run_health_check w)
        ≡ check_pool w w.available_utxos (check_redis w w.redis_ready db_checks)
  unfolding run_health_check
  report_up up = simp up refl

  passes_iff : ((run_health_check w).passes ≡ true) ↔ IsHealthy
  passes_iff = elim (Bool-cases w.db_connects) [
    | inr down ↦
        ((λ h. absurd (cc (report_down down))), λ (h : IsHealthy). absurd (cc (sym down ∙ h.4)))
    | inl up ↦
        let (pool, pool') =
          check_pool-passes w.available_utxos (check_redis w w.redis_ready db_checks) refl in
        let (redis, redis') = check_redis-passes w.redis_ready db_checks refl in
        (
          (λ h.
              let (a, b) = pool (subst (λ r. r.passes ≡ true) (report_up up) h) in
              let (ready, rest) = redis a in
              let (starts, set) = first_checks-passes.0 rest in
              (b.0, b.1, set, starts, up, ready, b.2, b.3)),
          λ (h : IsHealthy).
              subst (λ r. r.passes ≡ true) (sym (report_up up))
                (pool' (redis' (h.5, first_checks-passes.1 (h.3, h.2)), (h.0, h.1, h.6, h.7))),
        )
  ]

  exit_code-passes : (exit_code w ≡ 0) ↔ ((run_health_check w).passes ≡ true)
  unfolding exit_code
  exit_code-passes = ((λ h. code (run_health_check w).passes h), λ h. rw h refl)
    where
      code : (b : Bool) → ◌≡◌ {A = ℕ} (if b then 0 else 1) 0 → b ≡ true
      code true h = refl
      code false h = absurd (omega arith)

  -- The script exits with 0 exactly if all is well: every required variable is set, the client
  -- starts, the database connects, Redis is ready, and there are available outputs, of which the
  -- chain says that none is spent.
  exit_code_iff : (exit_code w ≡ 0) ↔ IsHealthy
  exit_code_iff =
      ((λ h. passes_iff.0 (exit_code-passes.0 h)), λ h. exit_code-passes.1 (passes_iff.1 h))

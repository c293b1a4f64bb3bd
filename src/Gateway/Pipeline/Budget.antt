-- ===== src/Gateway/Pipeline/Budget.antt =====
-- The account of the sessions through the life of a pipeline, and the budget that it reports.
use realm_mesh.Prelude.{
  Bool, Result, Result-cases, ℕ, ◌+◌, ◌^◌, ◌<◌, ◌≡◌, refl, sym, ◌∙◌, ap, List, [], ◌∷◌, length,
  arith, either, Text, ok, Bool-cases, throw_if, invalid_argument, ◌>>◌, all_of, in_range, ltb,
  ◌||◌, not, ◌==◌, subst, inl, inr,
}
use realm_mesh.Gateway.Pipeline.{
  Ports, GatewayLoginPipeline, GatewayLoginFrame, GatewayLoginConfig, GatewayLoginAdvanceResult,
}
use realm_mesh.Gateway.Pipeline.Settings.{validate_config}
use realm_mesh.Gateway.Pipeline.Fetching.{
  is_unhealthy, apply_handoff_expiry, drain_fetch_completions, apply_fetch_timeouts,
}
use realm_mesh.Gateway.Pipeline.Attach.{preapply_lifecycle, process_messages}
use realm_mesh.Gateway.Pipeline.Flushing.{with_world}
use realm_mesh.Gateway.Pipeline.Frame.{
  run_fetches, refreshed, advance_healthy, advance, run, destroy, new_pipeline, create, result,
}
use realm_mesh.Gateway.Pipeline.Accounts.{Laws, slots, total}
use realm_mesh.Gateway.Pipeline.Invariant.{IsAccounted, shared-IsAccounted, halt_sessions_lem}
use realm_mesh.Gateway.Pipeline.Phases.{preapply_lifecycle-Keeps, process_messages-Keeps}
use realm_mesh.Gateway.Pipeline.FetchPhases.{
  apply_handoff_expiry-Keeps, drain_fetch_completions-Keeps, apply_fetch_timeouts-Keeps,
  drive_fetch_submissions-Keeps,
}
use realm_mesh.Gateway.Pipeline.Commands.{flush_intents-Keeps}

module _ {W : Type 0} (ports : Ports W) (held : W → ℕ) (laws : Laws ports held) (base : ℕ) where
  run_fetches-Keeps :
      (frame : GatewayLoginFrame) (p : GatewayLoginPipeline W)
      → IsAccounted held base p
      → IsAccounted held base (run_fetches ports frame p)
  unfolding run_fetches
  run_fetches-Keeps frame p h =
      let p1 = apply_handoff_expiry ports frame.now (ports.walk p.sessions) p in
      let h1 =
        apply_handoff_expiry-Keeps ports held laws base frame.now (ports.walk p.sessions) p h in
      let p2 = drain_fetch_completions ports frame.now p1 in
      let h2 = drain_fetch_completions-Keeps ports held laws base frame.now p1 h1 in
      let p3 = apply_fetch_timeouts ports frame.now (ports.walk p2.sessions) p2 in
      let h3 =
        apply_fetch_timeouts-Keeps ports held laws base frame.now (ports.walk p2.sessions) p2 h2 in
      drive_fetch_submissions-Keeps ports held laws base frame.now (ports.walk p3.sessions) p3 h3

  advance_healthy-Keeps :
      (frame : GatewayLoginFrame) (p : GatewayLoginPipeline W)
      → IsAccounted held base p
      → IsAccounted held base (advance_healthy ports frame p)
  unfolding advance_healthy
  advance_healthy-Keeps frame p h =
      let q = refreshed ports frame p in
      let events = ports.drain_events q.shared.world 4096 in
      let drained =
        shared-IsAccounted held base p (record q.shared { world = events.0 }) h refl
          (laws.events_law q.shared.world 4096 ∙ laws.refresh_law p.shared.world frame.now) in
      let p1 = preapply_lifecycle ports (with_world ports q events.0) events.1 in
      let h1 =
        preapply_lifecycle-Keeps ports held laws base (with_world ports q events.0) events.1
          drained in
      let p2 = process_messages ports frame events.1 p1 in
      let h2 = process_messages-Keeps ports held laws base frame events.1 p1 h1 in
      flush_intents-Keeps ports held laws base frame (run_fetches ports frame p2)
        (run_fetches-Keeps frame p2 h2)

  pub advance-Keeps :
      (frame : GatewayLoginFrame) (p : GatewayLoginPipeline W)
      → IsAccounted held base p
      → IsAccounted held base (advance ports frame p).0
  unfolding advance
  advance-Keeps frame p h =
      either (λ (x : GatewayLoginPipeline W × GatewayLoginAdvanceResult). IsAccounted held base x.0)
        (is_unhealthy p.health) (p, result ports p)
        (advance_healthy ports frame p, result ports (advance_healthy ports frame p)) (λ e. h)
        (λ e. advance_healthy-Keeps frame p h)

  run-Keeps :
      (frames : List GatewayLoginFrame) (p : GatewayLoginPipeline W)
      → IsAccounted held base p
      → IsAccounted held base (run ports frames p)
  unfolding run
  run-Keeps [] p h = h
  run-Keeps (frame ∷ frames) p h =
      run-Keeps frames (advance ports frame p).0 (advance-Keeps frame p h)

  result_budget :
      (p : GatewayLoginPipeline W)
      → IsAccounted held base p
      → let b = (result ports p).local_budget in
        (b.conn_free + length p.sessions ≡ p.config.conn_capacity)
        × (b.fetch_free + total slots p.sessions ≡ p.config.fetch_capacity)
  result_budget p h =
      let room = h.room in
      let small = h.small in
      let narrow = h.narrow in
      let used = h.used in let bound = h.bound in (omega arith, omega arith)

  pub advance-result :
      (frame : GatewayLoginFrame) (p : GatewayLoginPipeline W)
      → IsAccounted held base p
      → let a = advance ports frame p in
        (a.1.local_budget.conn_free + length a.0.sessions ≡ a.0.config.conn_capacity)
        × (a.1.local_budget.fetch_free + total slots a.0.sessions ≡ a.0.config.fetch_capacity)
  unfolding advance
  advance-result frame p h =
      let q = advance_healthy ports frame p in
      either
        (λ (a : GatewayLoginPipeline W × GatewayLoginAdvanceResult).
          (a.1.local_budget.conn_free + length a.0.sessions ≡ a.0.config.conn_capacity)
          × (a.1.local_budget.fetch_free + total slots a.0.sessions ≡ a.0.config.fetch_capacity))
        (is_unhealthy p.health) (p, result ports p) (q, result ports q) (λ e. result_budget p h)
        (λ e. result_budget q (advance_healthy-Keeps frame p h))

module _ {W : Type 0} (ports : Ports W) (held : W → ℕ) (laws : Laws ports held) where
  -- A pipeline that was created is accounted after any frames.
  pub create-run :
      (config : GatewayLoginConfig) (gateway_instance : Text) (w : W) (p : GatewayLoginPipeline W)
      (frames : List GatewayLoginFrame)
      → create config gateway_instance w ≡ ok p
      → config.fetch_capacity < 2 ^ 64
      → config.conn_capacity < 2 ^ 64
      → IsAccounted held (held w) (run ports frames p)
  unfolding create total
  create-run config gateway_instance w p frames e small narrow =
      let q = new_pipeline config gateway_instance w in
      let start : IsAccounted held (held w) q = record {
        ordered = tt;
        room = omega arith;
        small = small;
        narrow = narrow;
        used = refl;
        bound = omega arith;
        reserved = omega arith;
        fit = tt;
      } in
      let refused =
        length gateway_instance == 0
        || ltb 64 (length gateway_instance)
        || not (all_of (in_range 33 126) gateway_instance) in
      let behind : Result (Unit {0}) → Result (GatewayLoginPipeline W) =
        λ r. r >> (throw_if refused invalid_argument >> ok q) in
      let name_checked = λ (t : Bool). throw_if t invalid_argument >> ok q in
      elim (Result-cases (validate_config config)) [
        | inr (x, bad) ↦ let wrong = sym (ap behind bad) ∙ e in cc
        | inl (x, good) ↦
            let named : name_checked refused ≡ ok p = sym (ap behind good) ∙ e in
            elim (Bool-cases refused) [
              | inl bad ↦ let wrong = sym (ap name_checked bad) ∙ named in cc
              | inr fine ↦
                  let same = sym (ap name_checked fine) ∙ named in
                  let is_it : q ≡ p = cc in
                  run-Keeps ports held laws (held w) frames p
                    (subst (IsAccounted held (held w)) is_it start)
            ]
      ]

  pub destroy_lem :
      (config : GatewayLoginConfig) (gateway_instance : Text) (w : W) (p : GatewayLoginPipeline W)
      (frames : List GatewayLoginFrame)
      → create config gateway_instance w ≡ ok p
      → config.fetch_capacity < 2 ^ 64
      → config.conn_capacity < 2 ^ 64
      → held (destroy ports (run ports frames p)) ≡ held w
  unfolding destroy
  destroy_lem config gateway_instance w p frames e small narrow =
      let q = run ports frames p in
      let h = create-run config gateway_instance w p frames e small narrow in
      (halt_sessions_lem ports held laws (held w) 0 q.shared q.sessions h.reserved h.fit
        h.ordered).1

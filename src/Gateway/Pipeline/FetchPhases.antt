-- ===== src/Gateway/Pipeline/FetchPhases.antt =====
-- The account of the sessions through the phases of a frame around the fetches.
use realm_mesh.Prelude.{
  ℕ, ◌≤◌, ◌≡◌, refl, sym, ◌∙◌, List, [], ◌∷◌, true, not, ◌||◌, ltb, add64, Option, none, some, find,
  arith, subst, either,
}
use realm_mesh.Gateway.Pipeline.{
  PipelineSession, Ports, Shared, GatewayLoginPipeline, AccountFetchCompletion, AccountFetchRequest,
  AccountFetchSubmitResult, submitted, submit_full, submit_stopped,
}
use realm_mesh.Gateway.Pipeline.Sessions.{cancel_attempt, schedule_close}
use realm_mesh.Gateway.Pipeline.Attach.{store, has_value}
use realm_mesh.Gateway.Pipeline.Fetching.{
  is_due, is_attempt, is_fetching, is_unhealthy, expire_found, apply_handoff_expiry, forget_attempt,
  complete, complete_found, completed, apply_completions, drain_fetch_completions, timed_out,
  timeout_found, apply_fetch_timeouts, answered, can_submit, submit_session, submit_found,
  drive_fetch_submissions,
}
use realm_mesh.Gateway.Pipeline.Accounts.{Laws, Fits}
use realm_mesh.Gateway.Pipeline.Rules.{schedule_close-Owns}
use realm_mesh.Gateway.Pipeline.FetchRules.{
  record_fetch_failure-Owns, complete-Owns, cancel_active-Owns,
}
use realm_mesh.Gateway.Pipeline.Invariant.{
  IsAccounted, shared-IsAccounted, store-IsAccounted, mark_unhealthy-IsAccounted,
}

module _ {W : Type 0} (ports : Ports W) (held : W → ℕ) (laws : Laws ports held) (base : ℕ) where
  abbrev Keeps : GatewayLoginPipeline W → Type 0
  Keeps p = IsAccounted held base p

  expire_found-Keeps :
      (now : ℕ) (p : GatewayLoginPipeline W) (id : ℕ) (found : Option PipelineSession)
      → Keeps p
      → find id p.sessions ≡ found
      → Keeps (expire_found ports now p id found)
  expire_found-Keeps now p id none h e = h
  expire_found-Keeps now p id (some s) h e =
      let x = schedule_close ports p.shared s in
      either Keeps (s.closing || not (is_due s.handoff_deadline now)) p (store p id x) (λ stays. h)
        (λ due. store-IsAccounted held base p id s x h e (λ n m own.
          schedule_close-Owns ports held laws p.config.fetch_capacity n m (p.shared, s) own
            h.small))

  pub apply_handoff_expiry-Keeps :
      (now : ℕ) (ids : List ℕ) (p : GatewayLoginPipeline W)
      → IsAccounted held base p
      → IsAccounted held base (apply_handoff_expiry ports now ids p)
  unfolding apply_handoff_expiry
  apply_handoff_expiry-Keeps now [] p h = h
  apply_handoff_expiry-Keeps now (id ∷ ids) p h =
      apply_handoff_expiry-Keeps now ids (expire_found ports now p id (find id p.sessions))
        (expire_found-Keeps now p id (find id p.sessions) h refl)

  -- A session whose attempt runs fetches.
  is_attempt-Fits :
      (s : PipelineSession) (attempt : ℕ)
      → Fits s
      → is_attempt s.active_attempt attempt ≡ true
      → is_fetching s.stage ≡ true
  is_attempt-Fits s attempt fits e = ground arith

  complete_found-Keeps :
      (now : ℕ) (reply : AccountFetchCompletion) (p : GatewayLoginPipeline W) (id : ℕ)
      (found : Option PipelineSession)
      → Keeps p
      → find id p.sessions ≡ found
      → Keeps (complete_found ports now reply p id found)
  complete_found-Keeps now reply p id none h e =
      shared-IsAccounted held base p (forget_attempt ports reply.attempt_id p.shared) h refl refl
  complete_found-Keeps now reply p id (some s) h e =
      let c = forget_attempt ports reply.attempt_id p.shared in
      let t = record s { active_attempt = none } in
      let x = complete ports now p reply c t in
      either Keeps (is_attempt s.active_attempt reply.attempt_id) (store p id x)
        (record p { shared = c })
        (λ same. store-IsAccounted held base p id s x h e (λ n m own.
          let f = own.3 in
          complete-Owns ports held laws now p reply n m c t
            (own.0, own.1, own.2, (f.0, refl, f.2, f.3, f.4, f.5)) refl
            (is_attempt-Fits s reply.attempt_id f same) h.small))
        (λ other. shared-IsAccounted held base p c h refl refl)

  completed-Keeps :
      (now : ℕ) (reply : AccountFetchCompletion) (p : GatewayLoginPipeline W) (found : Option ℕ)
      → Keeps p
      → Keeps (completed ports now reply p found)
  completed-Keeps now reply p none h = h
  completed-Keeps now reply p (some id) h =
      complete_found-Keeps now reply p id (find id p.sessions) h refl

  apply_completions-Keeps :
      (now : ℕ) (finished : List AccountFetchCompletion) (p : GatewayLoginPipeline W)
      → Keeps p
      → Keeps (apply_completions ports now finished p)
  unfolding apply_completions
  apply_completions-Keeps now [] p h = h
  apply_completions-Keeps now (reply ∷ rest) p h =
      let found = find reply.attempt_id p.shared.attempts in
      apply_completions-Keeps now rest (completed ports now reply p found)
        (completed-Keeps now reply p found h)

  pub drain_fetch_completions-Keeps :
      (now : ℕ) (p : GatewayLoginPipeline W)
      → IsAccounted held base p
      → IsAccounted held base (drain_fetch_completions ports now p)
  unfolding drain_fetch_completions
  drain_fetch_completions-Keeps now p h =
      let answer = ports.drain_completions p.shared.world now p.config.fetch_capacity in
      let c = record p.shared { world = answer.0 } in
      apply_completions-Keeps now answer.1 (record p { shared = c })
        (shared-IsAccounted held base p c h refl
          (laws.completions_law p.shared.world now p.config.fetch_capacity))

  timeout_found-Keeps :
      (now : ℕ) (p : GatewayLoginPipeline W) (id : ℕ) (found : Option PipelineSession)
      → Keeps p
      → find id p.sessions ≡ found
      → Keeps (timeout_found ports now p id found)
  timeout_found-Keeps now p id none h e = h
  timeout_found-Keeps now p id (some s) h e =
      let y = cancel_attempt ports p.shared s in
      let x = timed_out ports now p y in
      either Keeps (s.closing || not (has_value s.active_attempt) || ltb now s.attempt_deadline) p
        (store p id x) (λ runs. h)
        (λ late. store-IsAccounted held base p id s x h e (λ n m own.
          record_fetch_failure-Owns ports held laws p.config now n m y.0 y.1
            (cancel_active-Owns ports held laws s.active_attempt p.config.fetch_capacity n m
              p.shared s own)
            h.small))

  pub apply_fetch_timeouts-Keeps :
      (now : ℕ) (ids : List ℕ) (p : GatewayLoginPipeline W)
      → IsAccounted held base p
      → IsAccounted held base (apply_fetch_timeouts ports now ids p)
  unfolding apply_fetch_timeouts
  apply_fetch_timeouts-Keeps now [] p h = h
  apply_fetch_timeouts-Keeps now (id ∷ ids) p h =
      apply_fetch_timeouts-Keeps now ids (timeout_found ports now p id (find id p.sessions))
        (timeout_found-Keeps now p id (find id p.sessions) h refl)

  -- The answer to a submission, for a session that could submit.
  answered-Keeps :
      (now : ℕ) (p : GatewayLoginPipeline W) (id : ℕ) (s : PipelineSession) (attempt : ℕ)
      (c : Shared W) (answer : AccountFetchSubmitResult)
      → Keeps p
      → find id p.sessions ≡ some s
      → can_submit ports now s ≡ true
      → c.fetch_used ≡ p.shared.fetch_used
      → held c.world ≡ held p.shared.world
      → Keeps (answered ports now p id s attempt c answer)
  answered-Keeps now p id s attempt c submit_full h e can same unmoved =
      shared-IsAccounted held base p
        (record c { fetch_submit_backpressure = add64 c.fetch_submit_backpressure 1 }) h same
        unmoved
  answered-Keeps now p id s attempt c submit_stopped h e can same unmoved =
      mark_unhealthy-IsAccounted ports held laws base (record p { shared = c })
        (shared-IsAccounted held base p c h same unmoved)
  answered-Keeps now p id s attempt c submitted h e can same unmoved =
      store-IsAccounted held base p id s _ h e (λ n m own. (
        same ∙ own.0,
        unmoved ∙ own.1,
        subst (λ u. u ≤ p.config.fetch_capacity) (sym same) own.2,
        (own.3.0, ground arith, own.3.2, own.3.3, own.3.4, own.3.5),
      ))

  submit_found-Keeps :
      (now : ℕ) (p : GatewayLoginPipeline W) (id : ℕ) (found : Option PipelineSession)
      → Keeps p
      → find id p.sessions ≡ found
      → Keeps (submit_found ports now p id found)
  unfolding submit_session
  submit_found-Keeps now p id none h e = h
  submit_found-Keeps now p id (some s) h e =
      let attempt = p.shared.next_attempt_id in
      let request : AccountFetchRequest = record {
        attempt_id = attempt;
        session_id = id;
        account_id = s.account_id;
      } in
      let answer = ports.submit p.shared.world request now in
      either Keeps (is_unhealthy p.health || not (can_submit ports now s)) p
        (submit_session ports now p id s) (λ e'. h)
        (λ free.
          answered-Keeps now p id s attempt
            (record p.shared { next_attempt_id = add64 attempt 1; world = answer.0 }) answer.1 h e
            (ground arith) refl (laws.submit_law p.shared.world request now))

  pub drive_fetch_submissions-Keeps :
      (now : ℕ) (ids : List ℕ) (p : GatewayLoginPipeline W)
      → IsAccounted held base p
      → IsAccounted held base (drive_fetch_submissions ports now ids p)
  unfolding drive_fetch_submissions
  drive_fetch_submissions-Keeps now [] p h = h
  drive_fetch_submissions-Keeps now (id ∷ ids) p h =
      drive_fetch_submissions-Keeps now ids (submit_found ports now p id (find id p.sessions))
        (submit_found-Keeps now p id (find id p.sessions) h refl)

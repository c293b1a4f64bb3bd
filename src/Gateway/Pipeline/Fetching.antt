-- ===== src/Gateway/Pipeline/Fetching.antt =====
-- The phases of a frame around the fetches of account data: expiry of handoffs, completions,
-- timeouts and submissions.
use realm_mesh.Prelude.{
  ℕ, ◌+◌, List, [], ◌∷◌, Bool, true, false, not, ◌||◌, ◌&&◌, ltb, leb, ◌==◌, if◌then◌else◌, Option,
  none, some, codes, add64, find, contains, put, erase,
}
use realm_mesh.Gateway.Pipeline.{
  PublicStage, stage_pending, fetching, handed_off, handoff_intent, RuntimeIntent, PipelineSession,
  GatewayPipelineHealth, healthy, unhealthy, AccountFetchStatus, fetch_succeeded, not_eligible,
  fetch_unavailable, AccountFetchCompletion, AccountFetchSubmitResult, submitted, submit_full,
  submit_stopped, Ports, Shared, GatewayLoginPipeline,
}
use realm_mesh.Gateway.Pipeline.Sessions.{
  milliseconds, cancel_attempt, release_fetch_reservation, schedule_close, schedule_decline,
  record_fetch_failure, mark_unhealthy,
}
use realm_mesh.Gateway.Pipeline.Attach.{has_value, store}

-- A time that is set and reached.
abbrev pub is_due : Option ℕ → ℕ → Bool
is_due none now = false
is_due (some t) now = leb t now

abbrev pub is_fetching : PublicStage → Bool
is_fetching stage_pending = false
is_fetching fetching = true
is_fetching handed_off = false

abbrev pub is_attempt : Option ℕ → ℕ → Bool
is_attempt none attempt = false
is_attempt (some a) attempt = a == attempt

abbrev pub is_unhealthy : GatewayPipelineHealth → Bool
is_unhealthy healthy = false
is_unhealthy unhealthy = true

abbrev pub handoff_command : RuntimeIntent
handoff_command = record { kind = handoff_intent; payload = [] }

module _ {W : Type 0} (ports : Ports W) where
  abbrev pub expire_found :
      ℕ → GatewayLoginPipeline W → ℕ → Option PipelineSession → GatewayLoginPipeline W
  expire_found now p id none = p
  expire_found now p id (some s) =
      if s.closing || not (is_due s.handoff_deadline now)
      then p
      else store p id (schedule_close ports p.shared s)

  unfoldable pub apply_handoff_expiry : ℕ → List ℕ → GatewayLoginPipeline W → GatewayLoginPipeline W
  unfolding schedule_close
  apply_handoff_expiry now [] p = p
  apply_handoff_expiry now (id ∷ ids) p =
      apply_handoff_expiry now ids (expire_found now p id (find id p.sessions))

  abbrev pub forget_attempt : ℕ → Shared W → Shared W
  forget_attempt attempt c = record c { attempts = erase attempt c.attempts }

  abbrev pub failed :
      ℕ
      → GatewayLoginPipeline W
      → AccountFetchStatus
      → Shared W
      → PipelineSession
      → Shared W × PipelineSession
  failed now p not_eligible c s = schedule_decline ports 1007 (codes "account not eligible") 0 0 c s
  failed now p fetch_succeeded c s = record_fetch_failure ports p.config now c s
  failed now p fetch_unavailable c s = record_fetch_failure ports p.config now c s

  abbrev pub fetched : Shared W × PipelineSession → Shared W × PipelineSession
  fetched (c, s) = (c, record s { intent = some handoff_command })

  -- The completion of the attempt that the session waits for.
  unfoldable pub complete :
      ℕ
      → GatewayLoginPipeline W
      → AccountFetchCompletion
      → Shared W
      → PipelineSession
      → Shared W × PipelineSession
  unfolding schedule_decline record_fetch_failure release_fetch_reservation
  complete now p done c s =
      if s.closing
      then (c, s)
      else if done.ok_flag
      then fetched (release_fetch_reservation c s)
      else failed now p done.status c s

  abbrev pub complete_found :
      ℕ
      → AccountFetchCompletion
      → GatewayLoginPipeline W
      → ℕ
      → Option PipelineSession
      → GatewayLoginPipeline W
  complete_found now done p id none = record p { shared = forget_attempt done.attempt_id p.shared }
  complete_found now done p id (some s) =
      if is_attempt s.active_attempt done.attempt_id
      then store p id (
          complete now p done (forget_attempt done.attempt_id p.shared)
            (record s { active_attempt = none }))
      else record p { shared = forget_attempt done.attempt_id p.shared }

  abbrev pub completed :
      ℕ → AccountFetchCompletion → GatewayLoginPipeline W → Option ℕ → GatewayLoginPipeline W
  completed now done p none = p
  completed now done p (some id) = complete_found now done p id (find id p.sessions)

  -- The loop of `drain_fetch_completions`.
  unfoldable pub apply_completions :
      ℕ → List AccountFetchCompletion → GatewayLoginPipeline W → GatewayLoginPipeline W
  unfolding complete
  apply_completions now [] p = p
  apply_completions now (done ∷ rest) p =
      apply_completions now rest (completed now done p (find done.attempt_id p.shared.attempts))

  unfoldable pub drain_fetch_completions : ℕ → GatewayLoginPipeline W → GatewayLoginPipeline W
  unfolding apply_completions
  drain_fetch_completions now p =
      let (w, finished) = ports.drain_completions p.shared.world now p.config.fetch_capacity in
      apply_completions now finished (record p { shared = record p.shared { world = w } })

  abbrev pub timed_out :
      ℕ → GatewayLoginPipeline W → Shared W × PipelineSession → Shared W × PipelineSession
  timed_out now p (c, s) = record_fetch_failure ports p.config now c s

  abbrev pub timeout_found :
      ℕ → GatewayLoginPipeline W → ℕ → Option PipelineSession → GatewayLoginPipeline W
  timeout_found now p id none = p
  timeout_found now p id (some s) =
      if s.closing || not (has_value s.active_attempt) || ltb now s.attempt_deadline
      then p
      else store p id (timed_out now p (cancel_attempt ports p.shared s))

  unfoldable pub apply_fetch_timeouts : ℕ → List ℕ → GatewayLoginPipeline W → GatewayLoginPipeline W
  unfolding record_fetch_failure
  apply_fetch_timeouts now [] p = p
  apply_fetch_timeouts now (id ∷ ids) p =
      apply_fetch_timeouts now ids (timeout_found now p id (find id p.sessions))

  -- What the answer of the port to a submission leads to.
  abbrev pub answered :
      ℕ
      → GatewayLoginPipeline W
      → ℕ
      → PipelineSession
      → ℕ
      → Shared W
      → AccountFetchSubmitResult
      → GatewayLoginPipeline W
  answered now p id s attempt c submit_full = record p {
    shared = record c { fetch_submit_backpressure = add64 c.fetch_submit_backpressure 1 };
  }
  answered now p id s attempt c submit_stopped = mark_unhealthy ports (record p { shared = c })
  answered now p id s attempt c submitted = store p id (
    record c {
      attempts = if contains attempt c.attempts then c.attempts else put attempt id c.attempts;
      fetch_retry_total =
          if s.fetch_failures == 0 then c.fetch_retry_total else add64 c.fetch_retry_total 1;
    },
    record s {
      active_attempt = some attempt;
      attempt_deadline = now + milliseconds p.config.fetch_timeout;
    },
  )

  abbrev pub can_submit : ℕ → PipelineSession → Bool
  can_submit now s =
      not s.closing
      && is_fetching s.stage
      && s.fetch_reserved
      && not (has_value s.active_attempt)
      && not (has_value s.intent)
      && leb s.fetch_due now

  unfoldable pub submit_session :
      ℕ → GatewayLoginPipeline W → ℕ → PipelineSession → GatewayLoginPipeline W
  unfolding mark_unhealthy
  submit_session now p id s =
      let attempt = p.shared.next_attempt_id in
      let (w, answer) =
        ports.submit p.shared.world
          (record { attempt_id = attempt; session_id = id; account_id = s.account_id }) now in
      answered now p id s attempt (record p.shared { next_attempt_id = add64 attempt 1; world = w })
        answer

  abbrev pub submit_found :
      ℕ → GatewayLoginPipeline W → ℕ → Option PipelineSession → GatewayLoginPipeline W
  submit_found now p id none = p
  submit_found now p id (some s) =
      if is_unhealthy p.health || not (can_submit now s) then p else submit_session now p id s

  unfoldable pub drive_fetch_submissions :
      ℕ → List ℕ → GatewayLoginPipeline W → GatewayLoginPipeline W
  unfolding submit_session
  drive_fetch_submissions now [] p = p
  drive_fetch_submissions now (id ∷ ids) p =
      drive_fetch_submissions now ids (submit_found now p id (find id p.sessions))

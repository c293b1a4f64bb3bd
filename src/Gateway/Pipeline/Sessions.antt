-- ===== src/Gateway/Pipeline/Sessions.antt =====
-- What the pipeline does to one session, and to what the sessions share.
use realm_mesh.Prelude.{
  ℕ, zero, suc, ◌+◌, ◌-◌, ◌*◌, ◌/◌, ◌%◌, ◌^◌, min, max, List, [], ◌∷◌, true, false, not, ltb, leb,
  if◌then◌else◌, Option, none, some, Text, codes, sub64, Map, erase,
}
use realm_mesh.Gateway.Admission.{GatewayAdmissionReservation}
use realm_mesh.Gateway.Pipeline.{
  stage_pending, decline_intent, close_intent, RuntimeIntent, PipelineSession, GatewayLoginConfig,
  Ports, Shared, GatewayLoginPipeline, unhealthy,
}

-- A new session.
abbrev pub new_session : Text → PipelineSession
new_session source = record {
  stage = stage_pending;
  intent = none;
  closing = false;
  fetch_reserved = false;
  account_id = 0;
  realm_id = 1;
  admission_reservation = none;
  fetch_failures = 0;
  fetch_due = 0;
  active_attempt = none;
  attempt_deadline = 0;
  handoff_deadline = none;
  source = source;
  attach_attempts = 0;
}

-- A duration in milliseconds.
abbrev pub milliseconds : ℕ → ℕ
milliseconds n = n * 1_000_000

pub retry_delay : ℕ → ℕ → ℕ
retry_delay base failure_count =
    let multiplier = 2 ^ min (failure_count - 1) 30 in
    if ltb (9_223_372_036_854_775_807 / multiplier) base
    then 9_223_372_036_854_775_807
    else base * multiplier

-- A retry hint of no seconds is not set.
abbrev pub retry_hint : ℕ → Option ℕ
retry_hint zero = none
retry_hint (suc seconds) = some (min (suc seconds) 4_294_967_295)

unfoldable pub release_fetch_reservation :
    {W : Type 0} → Shared W → PipelineSession → Shared W × PipelineSession
release_fetch_reservation c s =
    if not s.fetch_reserved
    then (c, s)
    else (record c { fetch_used = sub64 c.fetch_used 1 }, record s { fetch_reserved = false })

-- The end of `schedule_decline` and `schedule_close`.
abbrev pub leave_with : RuntimeIntent → PipelineSession → PipelineSession
leave_with intent s = record s { closing = true; intent = some intent }

abbrev pub close_command : RuntimeIntent
close_command = record { kind = close_intent; payload = [] }

module _ {W : Type 0} (ports : Ports W) where
  abbrev pub error_payload : ℕ → Text → ℕ → ℕ → List ℕ
  error_payload code message request_id retry_after =
      ports.encode_error code message (retry_hint retry_after) request_id

  -- The attempt that is running is cancelled and forgotten.
  abbrev pub cancel_active : Option ℕ → Shared W → PipelineSession → Shared W × PipelineSession
  cancel_active none c s = (c, s)
  cancel_active (some attempt) c s = (
    record c { world = ports.cancel c.world attempt; attempts = erase attempt c.attempts },
    record s { active_attempt = none },
  )

  abbrev pub cancel_attempt : Shared W → PipelineSession → Shared W × PipelineSession
  cancel_attempt c s = cancel_active s.active_attempt c s

  abbrev pub abandon_held :
      Option GatewayAdmissionReservation → Shared W → PipelineSession → Shared W × PipelineSession
  abandon_held none c s = (c, s)
  abandon_held (some reservation) c s = (
    record c { world = ports.abandon c.world reservation c.verification_now },
    record s { admission_reservation = none },
  )

  abbrev pub release_admission_reservation : Shared W → PipelineSession → Shared W × PipelineSession
  release_admission_reservation c s = abandon_held s.admission_reservation c s

  -- `release_session`; the session of a connection that was closed is dropped after it.
  unfoldable pub release_session : Shared W → PipelineSession → Shared W × PipelineSession
  unfolding release_fetch_reservation
  release_session c s =
      let (c1, s1) = cancel_attempt c s in
      let (c2, s2) = release_fetch_reservation c1 s1 in release_admission_reservation c2 s2

  unfoldable pub schedule_close : Shared W → PipelineSession → Shared W × PipelineSession
  unfolding release_session
  schedule_close c s = let (d, t) = release_session c s in (d, leave_with close_command t)

  unfoldable pub schedule_decline :
      ℕ → Text → ℕ → ℕ → Shared W → PipelineSession → Shared W × PipelineSession
  unfolding release_session
  schedule_decline code message request_id retry_after c s =
      let (d, t) = release_session c s in
      (
        d,
        leave_with
            (record {
              kind = decline_intent;
              payload = error_payload code message request_id retry_after;
            })
            t,
      )

  unfoldable pub record_fetch_failure :
      GatewayLoginConfig → ℕ → Shared W → PipelineSession → Shared W × PipelineSession
  unfolding retry_delay schedule_decline
  record_fetch_failure config now c s =
      let failed = record s { fetch_failures = (s.fetch_failures + 1) % 2 ^ 32 } in
      if leb failed.fetch_failures config.fetch_retry_max
      then (
        c,
        record failed {
          fetch_due =
              now + milliseconds (retry_delay config.fetch_retry_base failed.fetch_failures);
        },
      )
      else schedule_decline 1008 (codes "player data unavailable") 0
          (max 1 ((config.fetch_retry_base + 999) / 1000)) c failed

  -- The loop of `mark_unhealthy` over the sessions, in the order of their connections where the program walks
  -- an unordered map.
  unfoldable pub halt_sessions : Shared W → Map PipelineSession → Shared W × Map PipelineSession
  halt_sessions c [] = (c, [])
  halt_sessions c ((id, s) ∷ sessions) =
      let (d, t) = cancel_attempt c s in
      let (e, u) = release_admission_reservation d t in
      let (f, rest) = halt_sessions e sessions in (f, (id, u) ∷ rest)

  unfoldable pub mark_unhealthy : GatewayLoginPipeline W → GatewayLoginPipeline W
  unfolding halt_sessions
  mark_unhealthy p =
      let (c, sessions) = halt_sessions p.shared p.sessions in
      record p { health = unhealthy; sessions = sessions; shared = record c { attempts = [] } }

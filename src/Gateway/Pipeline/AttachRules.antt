-- ===== src/Gateway/Pipeline/AttachRules.antt =====
-- What the first two phases of a frame do to the slots and the reservations of a session.
use realm_mesh.Prelude.{
  ℕ, ◌+◌, ◌^◌, ◌<◌, ◌≡◌, ◌∙◌, ap, true, false, not, ◌||◌, Option, none, some, Text, codes, add64,
  length, ◌%◌, arith, Bool-cases, inl, inr, leb, ltb,
}
use realm_mesh.Gateway.Admission.{
  GatewayAdmissionReservation, GatewayAdmissionStartStatus, start_reserved, invalid_credentials,
  start_in_progress, start_consumed, start_unavailable,
}
use realm_mesh.Gateway.Pipeline.{
  PipelineSession, GatewayLoginConfig, Ports, Shared, EdgeEvent, EdgeAttach, GatewayLoginFrame,
  GatewayIngressCheck, GatewayIngressStatus, allowed, oversized, malformed, source_throttled,
  sustained_abuse, session_limited, verification_saturated,
}
use realm_mesh.Gateway.Pipeline.Attach.{
  has_value, is_pending, started, count_result, handle_attach, checked, receive, owner_of, or_zero,
}
use realm_mesh.Gateway.Pipeline.Accounts.{Laws, slots, reservations, Fits, Owns, handed}
use realm_mesh.Gateway.Pipeline.Rules.{schedule_close-Owns, schedule_decline-Owns}

-- The session waits for a message of attachment.
abbrev pub Waits : PipelineSession → Type 0
Waits s = (s.closing ≡ false) × (has_value s.intent ≡ false)

waiting_free :
    (s : PipelineSession)
    → Fits s
    → Waits s
    → is_pending s.stage ≡ true
    → (s.fetch_reserved ≡ false)
      × (has_value s.admission_reservation ≡ false)
      × (has_value s.active_attempt ≡ false)
waiting_free s fits waits idle = (ground arith, ground arith, ground arith)

module _ {W : Type 0} (ports : Ports W) (held : W → ℕ) (laws : Laws ports held) where
  pub started-Owns :
      (status : GatewayAdmissionStartStatus) (r : Option GatewayAdmissionReservation)
      (request_id capacity n m : ℕ) (c : Shared W) (s : PipelineSession)
      → c.fetch_used ≡ n + slots s
      → held c.world ≡ m + reservations s + handed status r
      → c.fetch_used < capacity
      → Fits s
      → Waits s
      → is_pending s.stage ≡ true
      → capacity < 2 ^ 64
      → Owns held capacity n m (started ports status r request_id c s)
  unfolding started
  started-Owns start_reserved (some r) request_id capacity n m c s used all bound fits waits idle
        small =
      let free = waiting_free s fits waits idle in
      (
        ground (arith, free),
        ground (arith, free),
        ground (arith, free),
        (
          ground (arith, free),
          ground (arith, free),
          ground (arith, free),
          ground (arith, free),
          ground (arith, free),
          ground (arith, free),
        ),
      )
  started-Owns start_reserved none request_id capacity n m c s used all bound fits waits idle
        small =
      schedule_decline-Owns ports held laws 1001 (codes "invalid credentials") request_id 0 capacity
        n m (count_result ports 1 c, s) (used, all ∙ omega arith, omega arith, fits) small
  started-Owns start_in_progress r request_id capacity n m c s used all bound fits waits idle
        small =
      schedule_decline-Owns ports held laws 1005 (codes "admission in progress") request_id 0
        capacity n m (count_result ports 2 c, s) (used, all ∙ omega arith, omega arith, fits) small
  started-Owns start_unavailable r request_id capacity n m c s used all bound fits waits idle
        small =
      schedule_decline-Owns ports held laws 1006 (codes "admission unavailable") request_id 0
        capacity n m (count_result ports 3 c, s) (used, all ∙ omega arith, omega arith, fits) small
  started-Owns invalid_credentials r request_id capacity n m c s used all bound fits waits idle
        small =
      schedule_decline-Owns ports held laws 1001 (codes "invalid credentials") request_id 0 capacity
        n m (count_result ports 1 c, s) (used, all ∙ omega arith, omega arith, fits) small
  started-Owns start_consumed r request_id capacity n m c s used all bound fits waits idle small =
      schedule_decline-Owns ports held laws 1001 (codes "invalid credentials") request_id 0 capacity
        n m (count_result ports 1 (record c { replay_rejections = add64 c.replay_rejections 1 }), s)
        (used, all ∙ omega arith, omega arith, fits) small

  pub handle_attach-Owns :
      (config : GatewayLoginConfig) (name : Text) (frame : GatewayLoginFrame)
      (id request_id n m : ℕ) (attach : EdgeAttach) (c : Shared W) (s : PipelineSession)
      → Owns held config.fetch_capacity n m (c, s)
      → Waits s
      → config.fetch_capacity < 2 ^ 64
      → Owns held config.fetch_capacity n m
          (handle_attach ports config name frame id request_id attach c s)
  unfolding handle_attach
  handle_attach-Owns config name frame id request_id n m attach c s owns waits small =
      elim (Bool-cases (is_pending s.stage)) [
        | inr busy ↦ rw busy (
            schedule_decline-Owns ports held laws 1001 (codes "invalid credentials") request_id 0
              config.fetch_capacity n m (c, s) owns small)
        | inl idle ↦ elim (Bool-cases (leb config.fetch_capacity c.fetch_used)) [
          | inl full ↦
              rw (idle, full)
                (schedule_decline-Owns ports held laws 1004 (codes "attach out of budget")
                  request_id 0 config.fetch_capacity n m (c, s) owns small)
          | inr free ↦
              let owner = owner_of ports name id c.next_admission_attempt_id in
              let answer =
                ports.reserve c.world attach.identity_token attach.admission_grant owner
                  frame.verification_now in
              rw (idle, free)
                (started-Owns answer.1.status answer.1.reservation request_id config.fetch_capacity
                  n m
                  (record c {
                    world = answer.0;
                    next_admission_attempt_id = add64 c.next_admission_attempt_id 1;
                  })
                  s owns.0
                  (laws.reserve_law c.world attach.identity_token attach.admission_grant owner
                      frame.verification_now
                    ∙ ap (λ h. h + handed answer.1.status answer.1.reservation) owns.1)
                  (ground arith) owns.3 waits idle small)
        ]
      ]

  pub checked-Owns :
      (status : GatewayIngressStatus) (check : GatewayIngressCheck) (config : GatewayLoginConfig)
      (name : Text) (frame : GatewayLoginFrame) (id request_id n m : ℕ) (c : Shared W)
      (s : PipelineSession)
      → Owns held config.fetch_capacity n m (c, s)
      → Waits s
      → config.fetch_capacity < 2 ^ 64
      → Owns held config.fetch_capacity n m
          (checked ports status check config name frame id request_id c s)
  unfolding checked
  checked-Owns allowed check config name frame id request_id n m c s owns waits small =
      let x = handle_attach ports config name frame id request_id check.attach c s in
      let h =
        handle_attach-Owns config name frame id request_id n m check.attach c s owns waits small in
      (h.0, laws.verification_law x.0.world ∙ h.1, h.2, h.3)
  checked-Owns source_throttled check config name frame id request_id n m c s owns waits small =
      schedule_decline-Owns ports held laws 429 (codes "admission throttled") request_id
        check.retry_after config.fetch_capacity n m (c, s) owns small
  checked-Owns verification_saturated check config name frame id request_id n m c s owns waits
        small =
      schedule_decline-Owns ports held laws 429 (codes "admission throttled") request_id
        check.retry_after config.fetch_capacity n m (c, s) owns small
  checked-Owns oversized check config name frame id request_id n m c s owns waits small =
      schedule_close-Owns ports held laws config.fetch_capacity n m (c, s) owns small
  checked-Owns sustained_abuse check config name frame id request_id n m c s owns waits small =
      schedule_close-Owns ports held laws config.fetch_capacity n m (c, s) owns small
  checked-Owns session_limited check config name frame id request_id n m c s owns waits small =
      schedule_close-Owns ports held laws config.fetch_capacity n m (c, s) owns small
  checked-Owns malformed check config name frame id request_id n m c s owns waits small =
      schedule_decline-Owns ports held laws 1001 (codes "invalid credentials") request_id 0
        config.fetch_capacity n m (c, s) owns small

  pub receive-Owns :
      (config : GatewayLoginConfig) (name : Text) (frame : GatewayLoginFrame) (event : EdgeEvent)
      (n m : ℕ) (c : Shared W) (s : PipelineSession)
      → Owns held config.fetch_capacity n m (c, s)
      → Waits s
      → config.fetch_capacity < 2 ^ 64
      → Owns held config.fetch_capacity n m (receive ports config name frame event c s)
  unfolding receive
  receive-Owns config name frame event n m c s owns waits small =
      let request_id = or_zero (ports.edge_request_id event.payload) in
      let wrong =
        event.established
        || not (is_pending s.stage)
        || ltb config.credential_ingress.max_attach_envelope_bytes (length event.payload) in
      elim (Bool-cases wrong) [
        | inl e ↦
            rw e (schedule_close-Owns ports held laws config.fetch_capacity n m (c, s) owns small)
        | inr e ↦ elim (Bool-cases (ports.is_edge_attach event.payload)) [
          | inr other ↦
              rw (e, other)
                (schedule_decline-Owns ports held laws 2002
                  (codes "attach before any other message") request_id 0 config.fetch_capacity n m
                  (c, s) owns small)
          | inl attach ↦
              let tried = record s { attach_attempts = (s.attach_attempts + 1) % 2 ^ 32 } in
              let answer =
                ports.inspect_attach c.world s.source tried.attach_attempts event.payload
                  frame.now in
              rw (e, attach)
                (checked-Owns answer.1.status answer.1 config name frame event.connection_id
                  request_id n m (record c { world = answer.0 }) tried
                  (
                    owns.0,
                    laws.inspect_law c.world s.source tried.attach_attempts event.payload frame.now
                        ∙ owns.1,
                    owns.2,
                    owns.3,
                  )
                  waits small)
        ]
      ]

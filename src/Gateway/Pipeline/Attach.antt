-- ===== src/Gateway/Pipeline/Attach.antt =====
-- The first two phases of a frame: the lifecycle of the connections, and their messages.
use realm_mesh.Prelude.{
  ℕ, zero, suc, ◌+◌, ◌%◌, ◌^◌, List, [], ◌∷◌, ◌++◌, Bool, true, false, not, ◌||◌, ltb, leb,
  if◌then◌else◌, Option, none, some, Text, codes, length, to_string, add64, find, contains, put,
  erase,
}
use realm_mesh.Gateway.Admission.{
  GatewayAdmissionReservation, GatewayAdmissionStartStatus, start_reserved, invalid_credentials,
  start_in_progress, start_consumed, start_unavailable,
}
use realm_mesh.Gateway.Pipeline.{
  PublicStage, stage_pending, fetching, handed_off, accept_intent, PipelineSession,
  GatewayLoginConfig, EdgeEventKind, connection_opened, message_received, connection_established,
  connection_closed, peer_address_changed, EdgeEvent, EdgeAttach, GatewayIngressStatus, allowed,
  oversized, malformed, source_throttled, sustained_abuse, session_limited, verification_saturated,
  GatewayIngressCheck, GatewayLoginFrame, Ports, Shared, GatewayLoginPipeline,
}
use realm_mesh.Gateway.Pipeline.Sessions.{
  new_session, release_session, schedule_close, schedule_decline,
}

abbrev pub or_zero : Option ℕ → ℕ
or_zero none = 0
or_zero (some n) = n

abbrev pub is_pending : PublicStage → Bool
is_pending stage_pending = true
is_pending fetching = false
is_pending handed_off = false

abbrev pub has_value {ℓ} : {A : Type ℓ} → Option A → Bool
has_value none = false
has_value (some a) = true

-- A counter of an array.
abbrev pub bump : ℕ → List ℕ → List ℕ
bump i [] = []
bump zero (n ∷ counts) = add64 n 1 ∷ counts
bump (suc i) (n ∷ counts) = n ∷ bump i counts

-- What the sessions share and one of them, put back.
abbrev pub store :
    {W : Type 0} → GatewayLoginPipeline W → ℕ → Shared W × PipelineSession → GatewayLoginPipeline W
store p id (c, s) = record p { shared = c; sessions = put id s p.sessions }

module _ {W : Type 0} (ports : Ports W) where
  abbrev pub close_found :
      GatewayLoginPipeline W → ℕ → Option PipelineSession → GatewayLoginPipeline W
  close_found p id none = p
  close_found p id (some s) = record p {
    shared = (release_session ports p.shared s).0;
    sessions = erase id p.sessions;
  }

  abbrev pub move_found :
      GatewayLoginPipeline W → ℕ → Text → Option PipelineSession → GatewayLoginPipeline W
  move_found p id source none = p
  move_found p id source (some s) = record p {
    sessions = put id (record s { source = source }) p.sessions;
  }

  -- `preapply_lifecycle` for one event.
  unfoldable pub lifecycle :
      GatewayLoginPipeline W → EdgeEventKind → ℕ → Text → GatewayLoginPipeline W
  unfolding release_session
  lifecycle p connection_opened id source =
      if contains id p.sessions || leb p.config.conn_capacity (length p.sessions)
      then p
      else record p { sessions = put id (new_session source) p.sessions }
  lifecycle p peer_address_changed id source = move_found p id source (find id p.sessions)
  lifecycle p connection_closed id source = close_found p id (find id p.sessions)
  lifecycle p message_received id source = p
  lifecycle p connection_established id source = p

  unfoldable pub preapply_lifecycle :
      GatewayLoginPipeline W → List EdgeEvent → GatewayLoginPipeline W
  unfolding lifecycle
  preapply_lifecycle p [] = p
  preapply_lifecycle p (e ∷ events) =
      preapply_lifecycle (lifecycle p e.kind e.connection_id e.source) events

  abbrev pub count_result : ℕ → Shared W → Shared W
  count_result index c = record c { credential_results = bump index c.credential_results }

  abbrev pub decline_credentials : Shared W → PipelineSession → ℕ → Shared W × PipelineSession
  decline_credentials c s request_id =
      schedule_decline ports 1001 (codes "invalid credentials") request_id 0 c s

  -- `handle_attach` behind the admission.
  unfoldable pub started :
      GatewayAdmissionStartStatus
      → Option GatewayAdmissionReservation
      → ℕ
      → Shared W
      → PipelineSession
      → Shared W × PipelineSession
  unfolding schedule_decline
  started start_reserved (some r) request_id c s = (
    record (count_result 0 c) { fetch_used = add64 c.fetch_used 1 },
    record s {
      account_id = r.account_id;
      admission_reservation = some r;
      fetch_reserved = true;
      intent = some (record {
        kind = accept_intent;
        payload = ports.encode_accepted r.account_id request_id;
      });
    },
  )
  started start_reserved none request_id c s = decline_credentials (count_result 1 c) s request_id
  started start_in_progress r request_id c s =
      schedule_decline ports 1005 (codes "admission in progress") request_id 0 (count_result 2 c) s
  started start_unavailable r request_id c s =
      schedule_decline ports 1006 (codes "admission unavailable") request_id 0 (count_result 3 c) s
  started invalid_credentials r request_id c s = decline_credentials (count_result 1 c) s request_id
  started start_consumed r request_id c s =
      decline_credentials
        (count_result 1 (record c { replay_rejections = add64 c.replay_rejections 1 })) s request_id

  -- Each attempt has an owner of its own.
  abbrev pub owner_of : Text → ℕ → ℕ → Text
  owner_of instance id attempt = instance ++ 47 ∷ to_string id ++ 47 ∷ to_string attempt

  unfoldable pub handle_attach :
      GatewayLoginConfig
      → Text
      → GatewayLoginFrame
      → ℕ
      → ℕ
      → EdgeAttach
      → Shared W
      → PipelineSession
      → Shared W × PipelineSession
  unfolding started
  handle_attach config name frame id request_id attach c s =
      if not (is_pending s.stage)
      then decline_credentials c s request_id
      else if leb config.fetch_capacity c.fetch_used
      then schedule_decline ports 1004 (codes "attach out of budget") request_id 0 c s
      else (let (w, answer) =
            ports.reserve c.world attach.identity_token attach.admission_grant
              (owner_of name id c.next_admission_attempt_id) frame.verification_now in
          started answer.status answer.reservation request_id
            (record c {
              world = w;
              next_admission_attempt_id = add64 c.next_admission_attempt_id 1;
            })
            s)

  abbrev pub finish_verification : Shared W × PipelineSession → Shared W × PipelineSession
  finish_verification (c, s) = (record c { world = ports.end_verification c.world }, s)

  -- The switch on what the ingress says; the lease of an accepted one ends with the message.
  unfoldable pub checked :
      GatewayIngressStatus
      → GatewayIngressCheck
      → GatewayLoginConfig
      → Text
      → GatewayLoginFrame
      → ℕ
      → ℕ
      → Shared W
      → PipelineSession
      → Shared W × PipelineSession
  unfolding handle_attach schedule_close schedule_decline
  checked allowed check config name frame id request_id c s =
      finish_verification (handle_attach config name frame id request_id check.attach c s)
  checked source_throttled check config name frame id request_id c s =
      schedule_decline ports 429 (codes "admission throttled") request_id check.retry_after c s
  checked verification_saturated check config name frame id request_id c s =
      schedule_decline ports 429 (codes "admission throttled") request_id check.retry_after c s
  checked oversized check config name frame id request_id c s = schedule_close ports c s
  checked sustained_abuse check config name frame id request_id c s = schedule_close ports c s
  checked session_limited check config name frame id request_id c s = schedule_close ports c s
  checked malformed check config name frame id request_id c s = decline_credentials c s request_id

  -- A message of a session that is neither closing nor waiting to send.
  unfoldable pub receive :
      GatewayLoginConfig
      → Text
      → GatewayLoginFrame
      → EdgeEvent
      → Shared W
      → PipelineSession
      → Shared W × PipelineSession
  unfolding checked schedule_close schedule_decline
  receive config name frame event c s =
      let request_id = or_zero (ports.edge_request_id event.payload) in
      if event.established
        || not (is_pending s.stage)
        || ltb config.credential_ingress.max_attach_envelope_bytes (length event.payload)
      then schedule_close ports c s
      else if not (ports.is_edge_attach event.payload)
      then schedule_decline ports 2002 (codes "attach before any other message") request_id 0 c s
      else (let tried = record s { attach_attempts = (s.attach_attempts + 1) % 2 ^ 32 } in
          let (w, check) =
            ports.inspect_attach c.world s.source tried.attach_attempts event.payload frame.now in
          checked check.status check config name frame event.connection_id request_id
            (record c { world = w }) tried)

  abbrev pub receive_found :
      GatewayLoginFrame
      → EdgeEvent
      → GatewayLoginPipeline W
      → Option PipelineSession
      → GatewayLoginPipeline W
  receive_found frame event p none = p
  receive_found frame event p (some s) =
      if s.closing || has_value s.intent
      then p
      else store p event.connection_id (receive p.config p.gateway_instance frame event p.shared s)

  -- `process_messages` for one event.
  unfoldable pub message :
      GatewayLoginFrame
      → EdgeEvent
      → EdgeEventKind
      → GatewayLoginPipeline W
      → GatewayLoginPipeline W
  unfolding receive
  message frame event message_received p =
      receive_found frame event p (find event.connection_id p.sessions)
  message frame event connection_opened p = p
  message frame event connection_established p = p
  message frame event connection_closed p = p
  message frame event peer_address_changed p = p

  unfoldable pub process_messages :
      GatewayLoginFrame → List EdgeEvent → GatewayLoginPipeline W → GatewayLoginPipeline W
  unfolding message
  process_messages frame [] p = p
  process_messages frame (e ∷ events) p = process_messages frame events (message frame e e.kind p)

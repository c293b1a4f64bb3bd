-- ===== src/Gateway/Pipeline.antt =====
-- game/gateway/src/gateway_login_pipeline.cpp: the pipeline that takes each connection of a gateway from
-- the attach message to the handoff. Children model its parts: Sessions (what is done to one session),
-- Attach, Fetching and Flushing (the phases of a frame) and Frame (`advance`). What the pipeline calls,
-- the transport, the admission, the fetch port, the ingress and the encoders, are the operations of
-- `Ports` on the state `W` of the world around it. They do not throw: an exception of the admission, which in
-- the program leaves the frame, is not modelled. Leaks puts the modelled admission behind them. Logging and the publication of
-- metrics are left out, but for the counters that are kept. A time is a count of nanoseconds. The order
-- in which an unordered map is walked is an operation of the ports too.
pub mod Settings
pub mod Sessions
pub mod Attach
pub mod Fetching
pub mod Flushing
pub mod Frame
pub mod Accounts
pub mod Rules
pub mod AttachRules
pub mod FetchRules
pub mod Phases
pub mod FetchPhases
pub mod Commands
pub mod Leaks
pub mod Budget
mod Tests
pub mod Invariant
use realm_mesh.Prelude.{ℕ, List, Bool, Option, Text, Map}
use realm_mesh.Gateway.Admission.{
  GatewayAdmissionReservation, GatewayAdmissionStartResult, GatewayAdmissionTransitionStatus,
  PrimaryTransportResult,
}

pub data PublicStage : Type 0 where
  stage_pending fetching handed_off : PublicStage

pub data IntentKind : Type 0 where
  decline_intent close_intent accept_intent handoff_intent : IntentKind

pub record RuntimeIntent : Type 0 where
  pub kind : IntentKind
  pub payload : List ℕ

pub record PipelineSession : Type 0 where
  pub stage : PublicStage
  pub intent : Option RuntimeIntent
  pub closing : Bool
  pub fetch_reserved : Bool
  pub account_id : ℕ
  pub realm_id : ℕ
  pub admission_reservation : Option GatewayAdmissionReservation
  pub fetch_failures : ℕ
  pub fetch_due : ℕ
  pub active_attempt : Option ℕ
  pub attempt_deadline : ℕ
  pub handoff_deadline : Option ℕ
  pub source : Text
  pub attach_attempts : ℕ

pub data GatewayPipelineHealth : Type 0 where
  healthy unhealthy : GatewayPipelineHealth

pub record RealmEndpoint : Type 0 where
  pub address : Text
  pub port : ℕ

pub record AdmissionGrantKeySource : Type 0 where
  pub kid : Text
  pub public_key_environment : Text

pub record GatewayCredentialIngressConfig : Type 0 where
  pub max_attach_envelope_bytes : ℕ
  pub max_identity_token_bytes : ℕ
  pub max_admission_grant_bytes : ℕ
  pub max_token_decoded_bytes : ℕ
  pub source_rate_per_second : ℕ
  pub source_burst : ℕ
  pub source_throttle_close_after : ℕ
  pub session_attach_attempts : ℕ
  pub concurrent_verifications : ℕ
  pub max_tracked_sources : ℕ

-- The durations are in milliseconds, the window and the time to live in seconds; they are not negative.
pub record GatewayLoginConfig : Type 0 where
  pub conn_capacity : ℕ
  pub fetch_capacity : ℕ
  pub fetch_workers : ℕ
  pub fetch_timeout : ℕ
  pub fetch_retry_base : ℕ
  pub fetch_retry_max : ℕ
  pub handoff_grace : ℕ
  pub static_realm : Option RealmEndpoint
  pub credential_ingress : GatewayCredentialIngressConfig
  pub identity_kid : Text
  pub identity_issuer : Text
  pub admission_grant_keys : List AdmissionGrantKeySource
  pub admission_grant_issuer : Text
  pub admission_grant_window : ℕ
  pub deployment_id : Text
  pub admission_consumption_prefix : Text
  pub admission_reservation_ttl : ℕ

pub data EdgeEventKind : Type 0 where
  connection_opened message_received connection_established connection_closed peer_address_changed :
      EdgeEventKind

pub record EdgeEvent : Type 0 where
  pub kind : EdgeEventKind
  pub connection_id : ℕ
  pub established : Bool
  pub payload : List ℕ
  pub source : Text

pub record EdgeAttach : Type 0 where
  pub identity_token : Text
  pub admission_grant : Text

pub data GatewayIngressStatus : Type 0 where
  allowed oversized malformed source_throttled sustained_abuse session_limited
        verification_saturated :
      GatewayIngressStatus

pub record GatewayIngressCheck : Type 0 where
  pub status : GatewayIngressStatus
  pub attach : EdgeAttach
  pub retry_after : ℕ

pub data AccountFetchStatus : Type 0 where
  fetch_succeeded not_eligible fetch_unavailable : AccountFetchStatus

pub record AccountFetchRequest : Type 0 where
  pub attempt_id : ℕ
  pub session_id : ℕ
  pub account_id : ℕ

pub record AccountFetchCompletion : Type 0 where
  pub attempt_id : ℕ
  pub ok_flag : Bool
  pub status : AccountFetchStatus

pub data AccountFetchSubmitResult : Type 0 where
  submitted submit_full submit_stopped : AccountFetchSubmitResult

pub record GatewayLoginFrame : Type 0 where
  pub now : ℕ
  pub verification_now : ℕ
  pub discovered_realm : Option RealmEndpoint

-- What the pipeline calls.
pub record Ports (W : Type 0) : Type 0 where
  pub refresh_availability : W → ℕ → W
  pub available : W → Bool
  pub reserve : W → Text → Text → Text → ℕ → W × GatewayAdmissionStartResult
  pub on_accept_result :
      W
      → GatewayAdmissionReservation
      → PrimaryTransportResult
      → ℕ
      → W × GatewayAdmissionReservation × GatewayAdmissionTransitionStatus
  pub abandon : W → GatewayAdmissionReservation → ℕ → W
  pub drain_events : W → ℕ → W × List EdgeEvent
  pub accept : W → ℕ → List ℕ → W × PrimaryTransportResult
  pub decline : W → ℕ → List ℕ → W × PrimaryTransportResult
  pub send_handoff : W → ℕ → List ℕ → W × PrimaryTransportResult
  pub close : W → ℕ → W × PrimaryTransportResult
  pub submit : W → AccountFetchRequest → ℕ → W × AccountFetchSubmitResult
  pub drain_completions : W → ℕ → ℕ → W × List AccountFetchCompletion
  pub cancel : W → ℕ → W
  pub inspect_attach : W → Text → ℕ → List ℕ → ℕ → W × GatewayIngressCheck
  pub end_verification : W → W
  pub issue_ticket : W → ℕ → ℕ → ℕ → ℕ → W × List ℕ
  pub edge_request_id : List ℕ → Option ℕ
  pub is_edge_attach : List ℕ → Bool
  pub encode_error : ℕ → Text → Option ℕ → ℕ → List ℕ
  pub encode_accepted : ℕ → ℕ → List ℕ
  pub encode_granted : List ℕ → RealmEndpoint → List ℕ
  pub walk : Map PipelineSession → List ℕ

-- The members of the pipeline but for `sessions_` and `health_`.
pub record Shared (W : Type 0) : Type 0 where
  pub attempts : Map ℕ
  pub fetch_used : ℕ
  pub next_attempt_id : ℕ
  pub next_admission_attempt_id : ℕ
  pub fetch_retry_total : ℕ
  pub replay_rejections : ℕ
  pub fetch_submit_backpressure : ℕ
  pub runtime_backpressure : List ℕ
  pub credential_results : List ℕ
  pub verification_now : ℕ
  pub world : W

pub record GatewayLoginPipeline (W : Type 0) : Type 0 where
  pub config : GatewayLoginConfig
  pub gateway_instance : Text
  pub health : GatewayPipelineHealth
  pub sessions : Map PipelineSession
  pub shared : Shared W

pub record GatewayAdmissionBudget : Type 0 where
  pub conn_free : ℕ
  pub fetch_free : ℕ
  pub is_available : Bool

pub record GatewayLoginAdvanceResult : Type 0 where
  pub health : GatewayPipelineHealth
  pub local_budget : GatewayAdmissionBudget

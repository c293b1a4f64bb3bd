-- ===== src/Gateway/Pipeline/Frame.antt =====
-- A frame of the pipeline: `advance`, and the budget that it reports.
use realm_mesh.Prelude.{
  ℕ, ◌&&◌, not, List, [], ◌∷◌, if◌then◌else◌, length, sub64, Text, Result, invalid_argument, ok,
  throw_if, ◌>>◌, ◌||◌, ltb, in_range, all_of, ◌==◌,
}
use realm_mesh.Gateway.Pipeline.{
  GatewayLoginConfig, healthy, GatewayLoginFrame, Ports, Shared, GatewayLoginPipeline,
  GatewayLoginAdvanceResult,
}
use realm_mesh.Gateway.Pipeline.Settings.{validate_config}
use realm_mesh.Gateway.Pipeline.Sessions.{halt_sessions}
use realm_mesh.Gateway.Pipeline.Attach.{preapply_lifecycle, process_messages}
use realm_mesh.Gateway.Pipeline.Fetching.{
  is_unhealthy, apply_handoff_expiry, drain_fetch_completions, apply_fetch_timeouts,
  drive_fetch_submissions,
}
use realm_mesh.Gateway.Pipeline.Flushing.{with_world, flush_intents}

module _ {W : Type 0} (ports : Ports W) where
  abbrev pub conn_free : GatewayLoginPipeline W → ℕ
  conn_free p = sub64 p.config.conn_capacity (length p.sessions)

  abbrev pub fetch_free : GatewayLoginPipeline W → ℕ
  fetch_free p = sub64 p.config.fetch_capacity p.shared.fetch_used

  abbrev pub result : GatewayLoginPipeline W → GatewayLoginAdvanceResult
  result p = record {
    health = p.health;
    local_budget = record {
      conn_free = conn_free p;
      fetch_free = fetch_free p;
      is_available = not (is_unhealthy p.health) && ports.available p.shared.world;
    };
  }

  -- The phases between the drain of the events and the flush of the commands.
  unfoldable pub run_fetches : GatewayLoginFrame → GatewayLoginPipeline W → GatewayLoginPipeline W
  unfolding apply_handoff_expiry drain_fetch_completions apply_fetch_timeouts
      drive_fetch_submissions
  run_fetches frame p =
      let expired = apply_handoff_expiry ports frame.now (ports.walk p.sessions) p in
      let drained = drain_fetch_completions ports frame.now expired in
      let timed = apply_fetch_timeouts ports frame.now (ports.walk drained.sessions) drained in
      drive_fetch_submissions ports frame.now (ports.walk timed.sessions) timed

  abbrev pub refreshed : GatewayLoginFrame → GatewayLoginPipeline W → GatewayLoginPipeline W
  refreshed frame p = record p {
    shared = record p.shared {
      verification_now = frame.verification_now;
      world = ports.refresh_availability p.shared.world frame.now;
    };
  }

  unfoldable pub advance_healthy :
      GatewayLoginFrame → GatewayLoginPipeline W → GatewayLoginPipeline W
  unfolding preapply_lifecycle process_messages run_fetches flush_intents
  advance_healthy frame p =
      let (w, events) = ports.drain_events (refreshed frame p).shared.world 4096 in
      let opened = preapply_lifecycle ports (with_world ports (refreshed frame p) w) events in
      let received = process_messages ports frame events opened in
      flush_intents ports frame (run_fetches frame received)

  unfoldable pub advance :
      GatewayLoginFrame
      → GatewayLoginPipeline W
      → GatewayLoginPipeline W × GatewayLoginAdvanceResult
  unfolding advance_healthy
  advance frame p =
      if is_unhealthy p.health
      then (p, result p)
      else (advance_healthy frame p, result (advance_healthy frame p))

-- The frames that follow each other.
unfoldable pub run :
    {W : Type 0}
    → Ports W
    → List GatewayLoginFrame
    → GatewayLoginPipeline W
    → GatewayLoginPipeline W
unfolding advance
run ports [] p = p
run ports (frame ∷ frames) p = run ports frames (advance ports frame p).0

-- `~Impl`: what the world is after it.
unfoldable pub destroy : {W : Type 0} → Ports W → GatewayLoginPipeline W → W
unfolding halt_sessions
destroy ports p = (halt_sessions ports p.shared p.sessions).0.world

-- The members of a new pipeline.
abbrev pub new_shared : {W : Type 0} → W → Shared W
new_shared world = record {
  attempts = [];
  fetch_used = 0;
  next_attempt_id = 1;
  next_admission_attempt_id = 1;
  fetch_retry_total = 0;
  replay_rejections = 0;
  fetch_submit_backpressure = 0;
  runtime_backpressure = 0 ∷ 0 ∷ 0 ∷ 0 ∷ [];
  credential_results = 0 ∷ 0 ∷ 0 ∷ 0 ∷ 0 ∷ [];
  verification_now = 0;
  world = world;
}

abbrev pub new_pipeline : {W : Type 0} → GatewayLoginConfig → Text → W → GatewayLoginPipeline W
new_pipeline config gateway_instance world = record {
  config = config;
  gateway_instance = gateway_instance;
  health = healthy;
  sessions = [];
  shared = new_shared world;
}

-- `create`
unfoldable pub create :
    {W : Type 0} → GatewayLoginConfig → Text → W → Result (GatewayLoginPipeline W)
unfolding all_of validate_config
create config gateway_instance world = do
  validate_config config
  throw_if
      (length gateway_instance == 0
        || ltb 64 (length gateway_instance)
        || not (all_of (in_range 33 126) gateway_instance))
      invalid_argument
  ok (new_pipeline config gateway_instance world)

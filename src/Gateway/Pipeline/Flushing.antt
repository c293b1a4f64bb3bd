-- ===== src/Gateway/Pipeline/Flushing.antt =====
-- The last phase of a frame: the commands to the transport, by their priority.
use realm_mesh.Prelude.{
  ℕ, ◌+◌, List, [], ◌∷◌, Bool, true, false, ◌&&◌, not, ◌==◌, if◌then◌else◌, Option, none, some, Map,
  find,
}
use realm_mesh.Gateway.Admission.{
  GatewayAdmissionReservation, GatewayAdmissionTransitionStatus, pending, transition_applied,
  transition_lost, transition_unavailable, PrimaryTransportResult, queued, full, stopped,
}
use realm_mesh.Gateway.Pipeline.{
  fetching, handed_off, IntentKind, decline_intent, close_intent, accept_intent, handoff_intent,
  RuntimeIntent, PipelineSession, RealmEndpoint, GatewayLoginFrame, Ports, Shared,
  GatewayLoginPipeline,
}
use realm_mesh.Gateway.Pipeline.Sessions.{
  milliseconds, release_fetch_reservation, close_command, schedule_close, mark_unhealthy,
}
use realm_mesh.Gateway.Pipeline.Attach.{bump, store}
use realm_mesh.Gateway.Pipeline.Fetching.{is_unhealthy}

abbrev pub keys : Map PipelineSession → List ℕ
keys [] = []
keys ((id, s) ∷ sessions) = id ∷ keys sessions

-- The place of a command among the counters, by the order of the kinds.
abbrev pub index_of : IntentKind → ℕ
index_of decline_intent = 0
index_of close_intent = 1
index_of accept_intent = 2
index_of handoff_intent = 3

-- `frame.discovered_realm`, or else the realm of the settings.
abbrev pub endpoint_of : Option RealmEndpoint → Option RealmEndpoint → Option RealmEndpoint
endpoint_of none configured = configured
endpoint_of (some e) configured = some e

abbrev pub is_applied : GatewayAdmissionTransitionStatus → Bool
is_applied transition_applied = true
is_applied pending = false
is_applied transition_lost = false
is_applied transition_unavailable = false

module _ {W : Type 0} (ports : Ports W) where
  abbrev pub with_world : GatewayLoginPipeline W → W → GatewayLoginPipeline W
  with_world p w = record p { shared = record p.shared { world = w } }

  -- Backpressure: the command stays.
  abbrev pub kept : GatewayLoginPipeline W → ℕ → PipelineSession → ℕ → GatewayLoginPipeline W
  kept p id s index =
      store p id
        (record p.shared { runtime_backpressure = bump index p.shared.runtime_backpressure }, s)

  -- The transport has stopped.
  abbrev pub halted : GatewayLoginPipeline W → ℕ → PipelineSession → GatewayLoginPipeline W
  halted p id s =
      mark_unhealthy ports (store p id (p.shared, record s { admission_reservation = none }))

  -- The end of `flush_intent` for a command that closes the session.
  abbrev pub left :
      GatewayLoginPipeline W
      → ℕ
      → PipelineSession
      → IntentKind
      → PrimaryTransportResult
      → GatewayLoginPipeline W
  left p id s kind full = kept p id s (index_of kind)
  left p id s kind stopped = halted p id s
  left p id s close_intent queued =
      store p id (p.shared, record s { closing = true; handoff_deadline = none; intent = none })
  left p id s decline_intent queued =
      store p id (p.shared, record s { closing = true; intent = none })
  left p id s accept_intent queued = store p id (p.shared, record s { intent = none })
  left p id s handoff_intent queued = store p id (p.shared, record s { intent = none })

  abbrev pub handoff_sent :
      GatewayLoginFrame
      → GatewayLoginPipeline W
      → ℕ
      → PipelineSession
      → PrimaryTransportResult
      → GatewayLoginPipeline W
  handoff_sent frame p id s queued = store p id (
    p.shared,
    record s {
      stage = handed_off;
      handoff_deadline = some (frame.now + milliseconds p.config.handoff_grace);
      intent = none;
    },
  )
  handoff_sent frame p id s full = kept p id s 3
  handoff_sent frame p id s stopped = halted p id s

  abbrev pub close_instead : Shared W × PipelineSession → Shared W × PipelineSession
  close_instead (c, s) = (c, record s { closing = true; intent = some close_command })

  -- The transport took the message of acceptance; the admission says what became of the reservation.
  unfoldable pub accept_queued :
      GatewayLoginFrame
      → GatewayLoginPipeline W
      → ℕ
      → PipelineSession
      → GatewayAdmissionTransitionStatus
      → GatewayLoginPipeline W
  unfolding release_fetch_reservation
  accept_queued frame p id s transition =
      let settled = record s { admission_reservation = none } in
      if is_applied transition
      then store p id
          (p.shared, record settled { stage = fetching; fetch_due = frame.now; intent = none })
      else store p id (close_instead (release_fetch_reservation p.shared settled))

  abbrev pub accept_answered :
      GatewayLoginFrame
      → GatewayLoginPipeline W
      → ℕ
      → PipelineSession
      → PrimaryTransportResult
      → GatewayAdmissionReservation
      → GatewayAdmissionTransitionStatus
      → GatewayLoginPipeline W
  accept_answered frame p id s full r transition =
      kept p id (record s { admission_reservation = some r }) 2
  accept_answered frame p id s stopped r transition = halted p id s
  accept_answered frame p id s queued r transition = accept_queued frame p id s transition

  abbrev pub accept_sent :
      GatewayLoginFrame
      → GatewayLoginPipeline W
      → ℕ
      → PipelineSession
      → PrimaryTransportResult
      → Option GatewayAdmissionReservation
      → GatewayLoginPipeline W
  accept_sent frame p id s result none = mark_unhealthy ports p
  accept_sent frame p id s result (some r) =
      let (w, r', transition) =
        ports.on_accept_result p.shared.world r result frame.verification_now in
      accept_answered frame (with_world p w) id s result r' transition

  abbrev pub handoff_to :
      GatewayLoginFrame
      → GatewayLoginPipeline W
      → ℕ
      → PipelineSession
      → Option RealmEndpoint
      → GatewayLoginPipeline W
  handoff_to frame p id s none = store p id (schedule_close ports p.shared s)
  handoff_to frame p id s (some endpoint) =
      let (w, ticket) =
        ports.issue_ticket p.shared.world s.account_id s.realm_id 60 frame.verification_now in
      let (w', result) = ports.send_handoff w id (ports.encode_granted ticket endpoint) in
      handoff_sent frame (with_world p w') id s result

  unfoldable pub flush_intent :
      GatewayLoginFrame
      → GatewayLoginPipeline W
      → ℕ
      → PipelineSession
      → List ℕ
      → IntentKind
      → GatewayLoginPipeline W
  unfolding schedule_close mark_unhealthy accept_queued
  flush_intent frame p id s payload close_intent =
      let (w, result) = ports.close p.shared.world id in
      left (with_world p w) id s close_intent result
  flush_intent frame p id s payload decline_intent =
      let (w, result) = ports.decline p.shared.world id payload in
      left (with_world p w) id s decline_intent result
  flush_intent frame p id s payload accept_intent =
      let (w, result) = ports.accept p.shared.world id payload in
      accept_sent frame (with_world p w) id s result s.admission_reservation
  flush_intent frame p id s payload handoff_intent =
      handoff_to frame p id s (endpoint_of frame.discovered_realm p.config.static_realm)

  abbrev pub flush_command :
      GatewayLoginFrame
      → ℕ
      → GatewayLoginPipeline W
      → ℕ
      → PipelineSession
      → Option RuntimeIntent
      → GatewayLoginPipeline W
  flush_command frame index p id s none = p
  flush_command frame index p id s (some intent) =
      if index_of intent.kind == index && not (is_unhealthy p.health)
      then flush_intent frame p id s intent.payload intent.kind
      else p

  abbrev pub flush_found :
      GatewayLoginFrame
      → ℕ
      → GatewayLoginPipeline W
      → ℕ
      → Option PipelineSession
      → GatewayLoginPipeline W
  flush_found frame index p id none = p
  flush_found frame index p id (some s) = flush_command frame index p id s s.intent

  -- One round of `flush_intents`, for the commands of one kind.
  unfoldable pub flush_round :
      GatewayLoginFrame → ℕ → List ℕ → GatewayLoginPipeline W → GatewayLoginPipeline W
  unfolding flush_intent
  flush_round frame index [] p = p
  flush_round frame index (id ∷ ids) p =
      flush_round frame index ids (flush_found frame index p id (find id p.sessions))

  unfoldable pub flush_intents : GatewayLoginFrame → GatewayLoginPipeline W → GatewayLoginPipeline W
  unfolding flush_round
  flush_intents frame p =
      let ordered = keys p.sessions in
      let closed = flush_round frame 1 ordered p in
      let declined = flush_round frame 0 ordered closed in
      let accepted = flush_round frame 2 ordered declined in flush_round frame 3 ordered accepted

-- ===== src/Gateway/Pipeline/Commands.antt =====
-- The account of the sessions through the flush of the commands, and through a whole frame.
use realm_mesh.Prelude.{
  ℕ, ◌+◌, ◌≡◌, refl, ◌∙◌, ap, List, [], ◌∷◌, true, false, not, ◌&&◌, if◌then◌else◌, ◌==◌, Option,
  none, some, find, arith, either,
}
use realm_mesh.Gateway.Admission.{
  GatewayAdmissionReservation, GatewayAdmissionTransitionStatus, PrimaryTransportResult, queued,
  full, stopped,
}
use realm_mesh.Gateway.Pipeline.{
  PipelineSession, Ports, Shared, GatewayLoginPipeline, GatewayLoginFrame, IntentKind,
  decline_intent, close_intent, accept_intent, handoff_intent, RuntimeIntent, RealmEndpoint,
  fetching,
}
use realm_mesh.Gateway.Pipeline.Sessions.{schedule_close, close_command, release_fetch_reservation}
use realm_mesh.Gateway.Pipeline.Attach.{store, has_value}
use realm_mesh.Gateway.Pipeline.Fetching.{is_unhealthy}
use realm_mesh.Gateway.Pipeline.Flushing.{
  keys, index_of, is_applied, endpoint_of, with_world, halted, left, handoff_sent, close_instead,
  accept_queued, accept_answered, accept_sent, handoff_to, flush_intent, flush_command, flush_found,
  flush_round, flush_intents,
}
use realm_mesh.Gateway.Pipeline.Frame.{result}
use realm_mesh.Gateway.Pipeline.Accounts.{
  settles, flag, is_open, Laws, reservations, Fits, Owns, is_accepting, is_leaving, is_handing,
}
use realm_mesh.Gateway.Pipeline.Rules.{
  schedule_close-Owns, leave_with-Owns, others_bound, release_fetch_reservation_lem,
}
use realm_mesh.Gateway.Pipeline.Invariant.{
  IsAccounted, shared-IsAccounted, store-IsAccounted, mark_unhealthy-IsAccounted,
}

-- A command to leave, or to hand off, is of a session without a reservation.
none_reserved : (s : PipelineSession) → Fits s → is_accepting s.intent ≡ false → reservations s ≡ 0
none_reserved s fits other = ground arith

module _ {W : Type 0} (ports : Ports W) (held : W → ℕ) (laws : Laws ports held) (base : ℕ) where
  abbrev Keeps : GatewayLoginPipeline W → Type 0
  Keeps p = IsAccounted held base p

  halted-Keeps :
      (p : GatewayLoginPipeline W) (c : Shared W) (id : ℕ) (s : PipelineSession)
      → Keeps p
      → find id p.sessions ≡ some s
      → ((n m : ℕ)
          → Owns held p.config.fetch_capacity n m (p.shared, s)
          → Owns held p.config.fetch_capacity n m (c, record s { admission_reservation = none }))
      → Keeps (halted ports (record p { shared = c }) id s)
  halted-Keeps p c id s h e keeps =
      mark_unhealthy-IsAccounted ports held laws base
        (store p id (c, record s { admission_reservation = none }))
        (store-IsAccounted held base p id s (c, record s { admission_reservation = none }) h e
          keeps)

  left-Keeps :
      (p : GatewayLoginPipeline W) (w : W) (id : ℕ) (s : PipelineSession) (kind : IntentKind)
      (result : PrimaryTransportResult)
      → Keeps p
      → held w ≡ held p.shared.world
      → find id p.sessions ≡ some s
      → is_leaving s.intent ≡ true
      → is_leaving (some (record { kind = kind; payload = [] })) ≡ true
      → Keeps (left ports (with_world ports p w) id s kind result)
  left-Keeps p w id s kind full h quiet e leaves leaving =
      store-IsAccounted held base p id s _ h e (λ n m own. (own.0, quiet ∙ own.1, own.2, own.3))
  left-Keeps p w id s kind stopped h quiet e leaves leaving =
      halted-Keeps p (record p.shared { world = w }) id s h e
        (λ n m own.
          let f = own.3 in
          let empty = none_reserved s f (ground arith) in
          (own.0, quiet ∙ own.1 ∙ ap (λ r. m + r) empty, own.2, (refl, f.1, f.2, f.3, f.4, f.5)))
  left-Keeps p w id s close_intent queued h quiet e leaves leaving =
      store-IsAccounted held base p id s _ h e (λ n m own.
        let f = own.3 in
        (own.0, quiet ∙ own.1, own.2, (ground arith, f.1, ground arith, refl, refl, ground arith)))
  left-Keeps p w id s decline_intent queued h quiet e leaves leaving =
      store-IsAccounted held base p id s _ h e (λ n m own.
        let f = own.3 in
        (own.0, quiet ∙ own.1, own.2, (ground arith, f.1, ground arith, refl, refl, ground arith)))
  left-Keeps p w id s accept_intent queued h quiet e leaves leaving = cc
  left-Keeps p w id s handoff_intent queued h quiet e leaves leaving = cc

  handoff_sent-Keeps :
      (frame : GatewayLoginFrame) (p : GatewayLoginPipeline W) (w : W) (id : ℕ)
      (s : PipelineSession) (result : PrimaryTransportResult)
      → Keeps p
      → held w ≡ held p.shared.world
      → find id p.sessions ≡ some s
      → is_handing s.intent ≡ true
      → Keeps (handoff_sent ports frame (with_world ports p w) id s result)
  handoff_sent-Keeps frame p w id s full h quiet e hands =
      store-IsAccounted held base p id s _ h e (λ n m own. (own.0, quiet ∙ own.1, own.2, own.3))
  handoff_sent-Keeps frame p w id s stopped h quiet e hands =
      halted-Keeps p (record p.shared { world = w }) id s h e
        (λ n m own.
          let f = own.3 in
          let empty = none_reserved s f (ground arith) in
          (own.0, quiet ∙ own.1 ∙ ap (λ r. m + r) empty, own.2, (refl, f.1, f.2, f.3, f.4, f.5)))
  handoff_sent-Keeps frame p w id s queued h quiet e hands =
      store-IsAccounted held base p id s _ h e (λ n m own.
        let f = own.3 in
        (own.0, quiet ∙ own.1, own.2, (ground arith, ground arith, f.2, refl, refl, ground arith)))

  handoff_to-Keeps :
      (frame : GatewayLoginFrame) (p : GatewayLoginPipeline W) (id : ℕ) (s : PipelineSession)
      (found : Option RealmEndpoint)
      → Keeps p
      → find id p.sessions ≡ some s
      → is_handing s.intent ≡ true
      → Keeps (handoff_to ports frame p id s found)
  handoff_to-Keeps frame p id s none h e hands =
      store-IsAccounted held base p id s (schedule_close ports p.shared s) h e (λ n m own.
        schedule_close-Owns ports held laws p.config.fetch_capacity n m (p.shared, s) own h.small)
  handoff_to-Keeps frame p id s (some endpoint) h e hands =
      let ticket =
        ports.issue_ticket p.shared.world s.account_id s.realm_id 60 frame.verification_now in
      let sent = ports.send_handoff ticket.0 id (ports.encode_granted ticket.1 endpoint) in
      handoff_sent-Keeps frame p sent.0 id s sent.1 h
        (laws.handoff_law ticket.0 id (ports.encode_granted ticket.1 endpoint)
          ∙ laws.ticket_law p.shared.world s.account_id s.realm_id 60 frame.verification_now)
        e hands

  -- The transport took the acceptance; `c` is what is shared after the admission was told of it.
  accept_queued-Keeps :
      (frame : GatewayLoginFrame) (p : GatewayLoginPipeline W) (w : W) (id : ℕ)
      (s : PipelineSession) (transition : GatewayAdmissionTransitionStatus)
      → Keeps p
      → find id p.sessions ≡ some s
      → has_value s.admission_reservation ≡ true
      → ((m : ℕ) → held p.shared.world ≡ m + reservations s → held w ≡ m)
      → Keeps (accept_queued ports frame (with_world ports p w) id s transition)
  unfolding accept_queued
  accept_queued-Keeps frame p w id s transition h e has settles_one =
      let c = record p.shared { world = w } in
      let t = record s { admission_reservation = none } in
      either Keeps (is_applied transition)
        (store p id (c, record t { stage = fetching; fetch_due = frame.now; intent = none }))
        (store p id (close_instead ports (release_fetch_reservation c t)))
        (λ applied. store-IsAccounted held base p id s _ h e (λ n m own.
          let f = own.3 in
          (
            own.0,
            settles_one m own.1 ∙ omega arith,
            own.2,
            (refl, ground arith, f.2, refl, refl, ground arith),
          )))
        (λ lost. store-IsAccounted held base p id s _ h e (λ n m own.
          let f = own.3 in
          let freed =
            release_fetch_reservation_lem ports held laws p.config.fetch_capacity n c t own.0 own.2
              h.small in
          let idle : has_value s.active_attempt ≡ false = ground arith in
          leave_with-Owns ports held laws p.config.fetch_capacity n m close_command
            (release_fetch_reservation c t)
            (
              freed.0,
              freed.1 ∙ settles_one m own.1,
              freed.2,
              ap has_value freed.4 ∙ idle,
              ap has_value freed.3,
            )
            (others_bound held p.config.fetch_capacity n m (p.shared, s) own) refl))

  accept_answered-Keeps :
      (frame : GatewayLoginFrame) (p : GatewayLoginPipeline W) (w : W) (id : ℕ)
      (s : PipelineSession) (result : PrimaryTransportResult) (r : GatewayAdmissionReservation)
      (transition : GatewayAdmissionTransitionStatus)
      → Keeps p
      → find id p.sessions ≡ some s
      → has_value s.admission_reservation ≡ true
      → ((m : ℕ)
          → held p.shared.world ≡ m + reservations s
          → held w ≡ m + (if settles result then 0 else flag (not r.terminal)))
      → Keeps (accept_answered ports frame (with_world ports p w) id s result r transition)
  accept_answered-Keeps frame p w id s full r transition h e has law =
      store-IsAccounted held base p id s _ h e (λ n m own.
        let f = own.3 in (own.0, law m own.1, own.2, (ground arith, f.1, f.2, f.3, f.4, f.5)))
  accept_answered-Keeps frame p w id s stopped r transition h e has law =
      halted-Keeps p (record p.shared { world = w }) id s h e
        (λ n m own. let f = own.3 in (own.0, law m own.1, own.2, (refl, f.1, f.2, f.3, f.4, f.5)))
  accept_answered-Keeps frame p w id s queued r transition h e has law =
      accept_queued-Keeps frame p w id s transition h e has (λ m one. law m one ∙ omega arith)

  accept_sent-Keeps :
      (frame : GatewayLoginFrame) (p : GatewayLoginPipeline W) (w : W) (id : ℕ)
      (s : PipelineSession) (result : PrimaryTransportResult)
      (held_one : Option GatewayAdmissionReservation)
      → Keeps p
      → held w ≡ held p.shared.world
      → find id p.sessions ≡ some s
      → s.admission_reservation ≡ held_one
      → Keeps (accept_sent ports frame (with_world ports p w) id s result held_one)
  accept_sent-Keeps frame p w id s result none h quiet e has =
      mark_unhealthy-IsAccounted ports held laws base (with_world ports p w)
        (shared-IsAccounted held base p (record p.shared { world = w }) h refl quiet)
  accept_sent-Keeps frame p w id s result (some r) h quiet e has =
      let answer = ports.on_accept_result w r result frame.verification_now in
      accept_answered-Keeps frame p answer.0 id s result answer.1 answer.2 h e (ap has_value has)
        (λ m one.
          laws.accept_result_law w r result frame.verification_now m
            (quiet ∙ one ∙ ap (λ o. m + flag (is_open o)) has))

  flush_intent-Keeps :
      (frame : GatewayLoginFrame) (p : GatewayLoginPipeline W) (id : ℕ) (s : PipelineSession)
      (payload : List ℕ) (kind : IntentKind)
      → Keeps p
      → find id p.sessions ≡ some s
      → s.intent ≡ some (record { kind = kind; payload = payload })
      → Keeps (flush_intent ports frame p id s payload kind)
  unfolding flush_intent
  flush_intent-Keeps frame p id s payload close_intent h e same =
      let sent = ports.close p.shared.world id in
      left-Keeps p sent.0 id s close_intent sent.1 h (laws.close_law p.shared.world id) e
        (ap is_leaving same) refl
  flush_intent-Keeps frame p id s payload decline_intent h e same =
      let sent = ports.decline p.shared.world id payload in
      left-Keeps p sent.0 id s decline_intent sent.1 h (laws.decline_law p.shared.world id payload)
        e (ap is_leaving same) refl
  flush_intent-Keeps frame p id s payload accept_intent h e same =
      let sent = ports.accept p.shared.world id payload in
      accept_sent-Keeps frame p sent.0 id s sent.1 s.admission_reservation h
        (laws.accept_law p.shared.world id payload) e refl
  flush_intent-Keeps frame p id s payload handoff_intent h e same =
      handoff_to-Keeps frame p id s (endpoint_of frame.discovered_realm p.config.static_realm) h e
        (ap is_handing same)

  flush_command-Keeps :
      (frame : GatewayLoginFrame) (index : ℕ) (p : GatewayLoginPipeline W) (id : ℕ)
      (s : PipelineSession) (intent : Option RuntimeIntent)
      → Keeps p
      → find id p.sessions ≡ some s
      → s.intent ≡ intent
      → Keeps (flush_command ports frame index p id s intent)
  flush_command-Keeps frame index p id s none h e same = h
  flush_command-Keeps frame index p id s (some intent) h e same =
      either Keeps (index_of intent.kind == index && not (is_unhealthy p.health))
        (flush_intent ports frame p id s intent.payload intent.kind) p
        (λ now. flush_intent-Keeps frame p id s intent.payload intent.kind h e same) (λ later. h)

  flush_found-Keeps :
      (frame : GatewayLoginFrame) (index : ℕ) (p : GatewayLoginPipeline W) (id : ℕ)
      (found : Option PipelineSession)
      → Keeps p
      → find id p.sessions ≡ found
      → Keeps (flush_found ports frame index p id found)
  flush_found-Keeps frame index p id none h e = h
  flush_found-Keeps frame index p id (some s) h e =
      flush_command-Keeps frame index p id s s.intent h e refl

  flush_round-Keeps :
      (frame : GatewayLoginFrame) (index : ℕ) (ids : List ℕ) (p : GatewayLoginPipeline W)
      → Keeps p
      → Keeps (flush_round ports frame index ids p)
  unfolding flush_round
  flush_round-Keeps frame index [] p h = h
  flush_round-Keeps frame index (id ∷ ids) p h =
      flush_round-Keeps frame index ids (flush_found ports frame index p id (find id p.sessions))
        (flush_found-Keeps frame index p id (find id p.sessions) h refl)

  pub flush_intents-Keeps :
      (frame : GatewayLoginFrame) (p : GatewayLoginPipeline W)
      → IsAccounted held base p
      → IsAccounted held base (flush_intents ports frame p)
  unfolding flush_intents
  flush_intents-Keeps frame p h =
      let ids = keys p.sessions in
      let closed = flush_round-Keeps frame 1 ids p h in
      let declined = flush_round-Keeps frame 0 ids _ closed in
      let accepted = flush_round-Keeps frame 2 ids _ declined in
      flush_round-Keeps frame 3 ids _ accepted

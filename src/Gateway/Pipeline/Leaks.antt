-- ===== src/Gateway/Pipeline/Leaks.antt =====
-- gateway_login_pipeline.cpp over gateway_admission.cpp: the ports of a pipeline whose calls of the admission
-- go to `Gateway.Admission`, and the account of the handles that are open. A call of the store that throws
-- leaves the store as it was, and is answered as one of an unavailable store; in the program the exception
-- leaves the frame, which is not modelled.
use realm_mesh.Prelude.{
  ℕ, ◌+◌, ◌-◌, ◌^◌, ◌<◌, ◌≡◌, refl, List, not, if◌then◌else◌, Option, none, some, Text, Result, ok,
  err, length, arith, Option-cases, ◌>>=◌, inl, inr,
}
use realm_mesh.Gateway.Consumption.{
  AdmissionReserveStatus, AdmissionReserveResult, AdmissionReservation, reserved, in_progress,
  consumed, unavailable,
}
use realm_mesh.Gateway.Admission.{
  request_of, ConsumptionStore, Verifiers, GatewayAdmission, GatewayAdmissionReservation,
  GatewayAdmissionStartResult, GatewayAdmissionTransitionStatus, PrimaryTransportResult, queued,
  full, stopped, start_only, start_unavailable, transition_unavailable, start_result, reserve,
  on_accept_result, abandon, available, refresh_availability,
}
use realm_mesh.Gateway.Pipeline.{Ports, GatewayLoginPipeline, GatewayLoginFrame, GatewayLoginConfig}
use realm_mesh.Gateway.Pipeline.Frame.{advance, run, destroy, create}
use realm_mesh.Gateway.Pipeline.Accounts.{flag, is_open, handed, settles, Laws, slots, total}
use realm_mesh.Gateway.Pipeline.Invariant.{IsAccounted}
use realm_mesh.Gateway.Pipeline.Budget.{create-run, advance-Keeps, advance-result, destroy_lem}

-- The admission of the gateway, how many of its handles are open, and the rest of the world.
pub record World (S E : Type 0) : Type 0 where
  pub admission : GatewayAdmission S
  pub open_handles : ℕ
  pub outside : E

abbrev start_after :
    {S E : Type 0}
    → World S E
    → Result (GatewayAdmission S × GatewayAdmissionStartResult)
    → World S E × GatewayAdmissionStartResult
start_after w (err e) = (w, start_only start_unavailable)
start_after w (ok (g, start)) = (
  record w { admission = g; open_handles = w.open_handles + flag (is_open start.reservation) },
  start,
)

abbrev admission_after :
    {S : Type 0}
    → GatewayAdmission S
    → Result (GatewayAdmission S × GatewayAdmissionTransitionStatus)
    → GatewayAdmission S × GatewayAdmissionTransitionStatus
admission_after g (ok r) = r
admission_after g (err e) = (g, transition_unavailable)

-- The world after a call that turned the handle `r` into `t`.
abbrev settle_after :
    {S E : Type 0}
    → World S E
    → GatewayAdmissionReservation
    → GatewayAdmissionReservation
    → GatewayAdmission S
    → World S E
settle_after w r t g = record w {
  admission = g;
  open_handles = w.open_handles - flag (not r.terminal) + flag (not t.terminal);
}

abbrev put_outside : {S E X : Type 0} → World S E → E × X → World S E × X
put_outside w (e, x) = (record w { outside = e }, x)

module _ {S E : Type 0} (ops : ConsumptionStore S) (verifiers : Verifiers) (outside : Ports E) where
  -- The ports of a pipeline: the admission as it is modelled, and all other calls as `outside` answers them.
  abbrev pub admission_ports : Ports (World S E)
  admission_ports = record {
    refresh_availability =
        λ w t. record w { admission = (refresh_availability ops w.admission t).0 };
    available = λ w. available ops w.admission;
    reserve = λ w identity grant owner t.
        start_after w (reserve ops verifiers w.admission identity grant owner t);
    on_accept_result = λ w r result t.
        let out = on_accept_result ops w.admission r result t in
        let after = admission_after w.admission out.1 in
        (settle_after w r out.0 after.0, out.0, after.1);
    abandon = λ w r t.
        let out = abandon ops w.admission r t in
        settle_after w r out.0 (admission_after w.admission out.1).0;
    drain_events = λ w n. put_outside w (outside.drain_events w.outside n);
    accept = λ w id m. put_outside w (outside.accept w.outside id m);
    decline = λ w id m. put_outside w (outside.decline w.outside id m);
    send_handoff = λ w id m. put_outside w (outside.send_handoff w.outside id m);
    close = λ w id. put_outside w (outside.close w.outside id);
    submit = λ w r t. put_outside w (outside.submit w.outside r t);
    drain_completions = λ w t n. put_outside w (outside.drain_completions w.outside t n);
    cancel = λ w a. record w { outside = outside.cancel w.outside a };
    inspect_attach =
        λ w source n m t. put_outside w (outside.inspect_attach w.outside source n m t);
    end_verification = λ w. record w { outside = outside.end_verification w.outside };
    issue_ticket = λ w a b c t. put_outside w (outside.issue_ticket w.outside a b c t);
    edge_request_id = outside.edge_request_id;
    is_edge_attach = outside.is_edge_attach;
    encode_error = outside.encode_error;
    encode_accepted = outside.encode_accepted;
    encode_granted = outside.encode_granted;
    walk = outside.walk;
  }

  abbrev open_count : World S E → ℕ
  open_count w = w.open_handles

  abbrev Handed : World S E → Result (GatewayAdmission S × GatewayAdmissionStartResult) → Type 0
  Handed w r =
      (start_after w r).0.open_handles
      ≡ w.open_handles + handed (start_after w r).1.status (start_after w r).1.reservation

  start_result-Handed :
      (w : World S E) (g : GatewayAdmission S) (account : ℕ) (status : AdmissionReserveStatus)
      (o : Option AdmissionReservation)
      → Handed w (ok (g, start_result account status o))
  unfolding start_result
  start_result-Handed w g account reserved none = refl
  start_result-Handed w g account reserved (some r) = refl
  start_result-Handed w g account in_progress o = refl
  start_result-Handed w g account consumed o = refl
  start_result-Handed w g account unavailable o = refl

  answered-Handed :
      (w : World S E) (g : GatewayAdmission S) (account : ℕ)
      (answer : Result (S × AdmissionReserveResult))
      → Handed w (
          answer >>= λ r.
          ok (record g { store = r.0 }, start_result account r.1.status r.1.reservation))
  answered-Handed w g account (err e) = omega arith
  answered-Handed w g account (ok (s, answer)) =
      start_result-Handed w (record g { store = s }) account answer.status answer.reservation

  reserve-Handed :
      (w : World S E) (identity grant owner : Text) (t : ℕ)
      → Handed w (reserve ops verifiers w.admission identity grant owner t)
  unfolding reserve
  reserve-Handed w identity grant owner t =
      elim (Option-cases (verifiers.validate_identity identity w.admission.identity_issuer t)) [
        | inl none_there ↦ rw (reserve, none_there) (omega arith)
        | inr (claims, i) ↦
            elim (Option-cases (verifiers.validate_grant grant claims.jti claims.expires_at t)) [
              | inl none_there ↦ rw (reserve, i, none_there) (omega arith)
              | inr (granted, c) ↦
                  rw (reserve, i, c)
                    (answered-Handed w w.admission claims.account_id
                      (ops.reserve w.admission.store (request_of claims granted owner t)))
            ]
      ]

  accepted_count :
      (w : World S E) (r : GatewayAdmissionReservation) (result : PrimaryTransportResult) (t n : ℕ)
      → w.open_handles ≡ n + flag (not r.terminal)
      → (admission_ports.on_accept_result w r result t).0.open_handles
        ≡ n
          + (if settles result
              then 0
              else flag (not (admission_ports.on_accept_result w r result t).1.terminal))
  unfolding on_accept_result
  accepted_count w r full t n e = ground arith
  accepted_count w r queued t n e = ground arith
  accepted_count w r stopped t n e = ground arith

  abandoned_count :
      (w : World S E) (r : GatewayAdmissionReservation) (t n : ℕ)
      → w.open_handles ≡ n + flag (not r.terminal)
      → (admission_ports.abandon w r t).open_handles ≡ n
  unfolding abandon
  abandoned_count w r t n e = ground arith

  pub admission_ports-Laws : Laws admission_ports open_count
  admission_ports-Laws = record {
    refresh_law = λ w t. refl;
    reserve_law = λ w identity grant owner t. reserve-Handed w identity grant owner t;
    accept_result_law = accepted_count;
    abandon_law = abandoned_count;
    events_law = λ w n. refl;
    accept_law = λ w id m. refl;
    decline_law = λ w id m. refl;
    handoff_law = λ w id m. refl;
    close_law = λ w id. refl;
    submit_law = λ w r t. refl;
    completions_law = λ w t n. refl;
    cancel_law = λ w a. refl;
    inspect_law = λ w source n m t. refl;
    verification_law = λ w. refl;
    ticket_law = λ w a b c t. refl;
  }

  -- A frame keeps the account of the sessions, for any store (a call of it that throws counts as one that finds
  -- it unavailable), any verifiers and whatever the transport, the account fetches and the ingress answer: the slots in use are those that the sessions hold, at most the
  -- capacity; the open handles of the admission are `base` and those that the sessions hold; and there are at
  -- most as many sessions as the capacity.
  pub advance-IsAccounted :
      (base : ℕ) (frame : GatewayLoginFrame) (p : GatewayLoginPipeline (World S E))
      → IsAccounted open_count base p
      → IsAccounted open_count base (advance admission_ports frame p).0
  advance-IsAccounted = advance-Keeps admission_ports open_count admission_ports-Laws

  module _ (config : GatewayLoginConfig) (gateway_instance : Text) (w : World S E)
      (p : GatewayLoginPipeline (World S E)) (frames : List GatewayLoginFrame)
      (created : create config gateway_instance w ≡ ok p) (small : config.fetch_capacity < 2 ^ 64)
      (narrow : config.conn_capacity < 2 ^ 64) where
    -- A pipeline leaves no handle of the admission open: once one that was created with capacities of 64 bits
    -- is destroyed after any frames, as many handles are open as before it was created, for any store
    -- (a call of it that throws counts as one that finds it unavailable), any verifiers and whatever the transport, the account fetches and the ingress answer.
    pub run-destroy :
        (destroy admission_ports (run admission_ports frames p)).open_handles ≡ w.open_handles
    run-destroy =
        destroy_lem admission_ports open_count admission_ports-Laws config gateway_instance w p
          frames created small narrow

    -- After any frames of a pipeline that was created with capacities of 64 bits, what the reported budget
    -- leaves of the connections and of the account fetches makes up the capacity with the sessions and with
    -- the slots that they hold; the subtractions on 64 bits do not wrap.
    pub advance_budget :
        (frame : GatewayLoginFrame)
        → let a = advance admission_ports frame (run admission_ports frames p) in
          (a.1.local_budget.conn_free + length a.0.sessions ≡ a.0.config.conn_capacity)
          × (a.1.local_budget.fetch_free + total slots a.0.sessions ≡ a.0.config.fetch_capacity)
    advance_budget frame =
        advance-result admission_ports open_count admission_ports-Laws w.open_handles frame
          (run admission_ports frames p)
          (create-run admission_ports open_count admission_ports-Laws config gateway_instance w p
            frames created small narrow)

-- ===== src/Gateway/Pipeline/Tests.antt =====
-- Pipelines over an admission that only counts, and over the store in memory, and the frames that they go
-- through.
use realm_mesh.Prelude.{
  text_eq, all_of, ◌*◌, ℕ, ◌+◌, ◌-◌, ◌≡◌, refl, List, [], ◌∷◌, true, false, none, some, codes,
  arith, if◌then◌else◌, ok, length, find, contains, put,
}
use realm_mesh.Gateway.Admission.{
  GatewayAdmissionReservation, start_reserved, transition_applied, queued, full,
}
use realm_mesh.Gateway.Pipeline.{
  GatewayLoginConfig, connection_opened, message_received, EdgeEvent, allowed, submitted,
  GatewayLoginFrame, Ports, GatewayLoginPipeline,
}
use realm_mesh.Gateway.Pipeline.Flushing.{keys}
use realm_mesh.Gateway.Pipeline.Frame.{advance, run, destroy, new_pipeline, create}
use realm_mesh.Gateway.Pipeline.Accounts.{settles, slots, total}
use realm_mesh.Gateway.Pipeline.Invariant.{IsAccounted}
use realm_mesh.Gateway.Pipeline.Budget.{create-run}
use realm_mesh.Gateway.Pipeline.Leaks.{
  World, admission_ports, admission_ports-Laws, advance-IsAccounted, run-destroy, advance_budget,
}
use realm_mesh.Gateway.Consumption
use realm_mesh.Gateway.Consumption.{Store, second}
use realm_mesh.Gateway.Consumption.Tests.{first_byte, empty_store}
use realm_mesh.Gateway.Admission.{ConsumptionStore, reserve}
use realm_mesh.Gateway.Admission.Login.{in_memory}
use realm_mesh.Gateway.Admission.Tests.{verifiers, gateway}

abbrev test_reservation : GatewayAdmissionReservation
test_reservation = record {
  reservation = record {
    identity_jti = codes "i";
    grant_jti = codes "g";
    owner = codes "o";
    fencing = 1;
    lease_expires_at = 9;
    consume_until = 9;
  };
  account_id = 42;
  terminal = false;
}

abbrev test_events : List EdgeEvent
test_events =
    record {
      kind = connection_opened;
      connection_id = 7;
      established = false;
      payload = [];
      source = codes "s";
    }
    ∷ record {
      kind = message_received;
      connection_id = 7;
      established = false;
      payload = 1 ∷ [];
      source = codes "s";
    }
    ∷ []

abbrev test_ports : Ports ℕ
test_ports = record {
  refresh_availability = λ w t. w;
  available = λ w. true;
  reserve = λ w identity grant owner t.
      (w + 1, record { status = start_reserved; reservation = some test_reservation });
  on_accept_result = λ w r result t. (w - (if settles result then 1 else 0), r, transition_applied);
  abandon = λ w r t. w - 1;
  drain_events = λ w n. (w, test_events);
  accept = λ w id m. (w, full);
  decline = λ w id m. (w, queued);
  send_handoff = λ w id m. (w, queued);
  close = λ w id. (w, queued);
  submit = λ w r t. (w, submitted);
  drain_completions = λ w t n. (w, []);
  cancel = λ w a. w;
  inspect_attach = λ w source n m t. (
    w,
    record {
      status = allowed;
      attach = record { identity_token = []; admission_grant = [] };
      retry_after = 0;
    },
  );
  end_verification = λ w. w;
  issue_ticket = λ w a b c t. (w, []);
  edge_request_id = λ m. none;
  is_edge_attach = λ m. true;
  encode_error = λ code m hint id. [];
  encode_accepted = λ account id. [];
  encode_granted = λ ticket endpoint. [];
  walk = keys;
}

-- The store in memory, behind verifiers that accept all; the outside has no state of interest.
abbrev test_store : ConsumptionStore Store
test_store = in_memory first_byte

abbrev test_world : World Store ℕ
test_world = record { admission = gateway empty_store; open_handles = 0; outside = 3 }

abbrev over_store : Ports (World Store ℕ)
over_store = admission_ports test_store verifiers test_ports

abbrev test_config : GatewayLoginConfig
test_config = record {
  conn_capacity = 2;
  fetch_capacity = 1;
  fetch_timeout = 3_000;
  fetch_retry_base = 2_000;
  fetch_retry_max = 3;
  handoff_grace = 5_000;
  static_realm = none;
  fetch_workers = 1;
  credential_ingress = record {
    max_attach_envelope_bytes = 100;
    max_identity_token_bytes = 10;
    max_admission_grant_bytes = 10;
    max_token_decoded_bytes = 10;
    source_rate_per_second = 1;
    source_burst = 1;
    source_throttle_close_after = 1;
    session_attach_attempts = 1;
    concurrent_verifications = 1;
    max_tracked_sources = 1;
  };
  identity_kid = codes "k";
  identity_issuer = codes "i";
  admission_grant_keys = record { kid = codes "a"; public_key_environment = codes "A" } ∷ [];
  admission_grant_issuer = codes "q";
  admission_grant_window = 300;
  deployment_id = codes "d";
  admission_consumption_prefix = codes "p";
  admission_reservation_ttl = 10;
}

abbrev test_frame : GatewayLoginFrame
test_frame = record { now = 5; verification_now = 5; discovered_realm = none }

abbrev test_pipeline : GatewayLoginPipeline ℕ
test_pipeline = new_pipeline test_config (codes "g") 3

-- The acceptance waits for the transport: the slot and the reservation are held.
held_slot : (run test_ports (test_frame ∷ []) test_pipeline).shared.fetch_used ≡ 1
unfolding run find contains put
held_slot = refl

held_reservation : (run test_ports (test_frame ∷ []) test_pipeline).shared.world ≡ 4
unfolding run find contains put
held_reservation = refl

abbrev stored_pipeline : GatewayLoginPipeline (World Store ℕ)
stored_pipeline = new_pipeline test_config (codes "g") test_world

stored_created : create test_config (codes "g") test_world ≡ ok stored_pipeline
unfolding create
stored_created = refl

-- A login that the admission lets in opens a handle.
open_handle : (over_store.reserve test_world [] [] (codes "o") (100 * second)).0.open_handles ≡ 1
unfolding reserve Consumption.reserve text_eq all_of
open_handle = refl

stored_pipeline-IsAccounted : IsAccounted (λ w. w.open_handles) 0 stored_pipeline
unfolding run
stored_pipeline-IsAccounted =
    create-run over_store (λ w. w.open_handles)
      (admission_ports-Laws test_store verifiers test_ports) test_config (codes "g") test_world
      stored_pipeline [] stored_created (omega arith) (omega arith)

advance-IsAccounted_example :
    IsAccounted (λ w. w.open_handles) 0 (advance over_store test_frame stored_pipeline).0
advance-IsAccounted_example =
    advance-IsAccounted test_store verifiers test_ports 0 test_frame stored_pipeline
      stored_pipeline-IsAccounted

advance_budget_example :
    let a = advance over_store test_frame (run over_store (test_frame ∷ []) stored_pipeline) in
    (a.1.local_budget.conn_free + length a.0.sessions ≡ a.0.config.conn_capacity)
    × (a.1.local_budget.fetch_free + total slots a.0.sessions ≡ a.0.config.fetch_capacity)
advance_budget_example =
    advance_budget test_store verifiers test_ports test_config (codes "g") test_world
      stored_pipeline (test_frame ∷ []) stored_created (omega arith) (omega arith) test_frame

run-destroy_example :
    (destroy over_store
      (run over_store (test_frame ∷ test_frame ∷ []) stored_pipeline)).open_handles
    ≡ 0
run-destroy_example =
    run-destroy test_store verifiers test_ports test_config (codes "g") test_world stored_pipeline
      (test_frame ∷ test_frame ∷ []) stored_created (omega arith) (omega arith)

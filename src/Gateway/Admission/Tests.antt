-- ===== src/Gateway/Admission/Tests.antt =====
-- Runs of the gateway's admission over the store in memory, and its theorems at concrete inputs.
use realm_mesh.Prelude.{
  ◌+◌, ◌*◌, min, ◌≡◌, refl, [], ◌∷◌, false, ok, arith, some, none, insert_or_assign, text_eq,
  all_of,
}
use realm_mesh.Gateway.Consumption.{
  Store, AdmissionReserveRequest, AdmissionReserveResult, reserved, second, stable_digest,
}
use realm_mesh.Gateway.Consumption
use realm_mesh.Gateway.Consumption.SingleUse.{run}
use realm_mesh.Gateway.Consumption.Tests.{
  first_byte, jti, empty_store, reservation, leased, leased_record, handed_over, identity,
  digest_identity, commit_runs,
}
use realm_mesh.Gateway.Admission.{
  Verifiers, IdentityClaims, GrantClaims, GatewayAdmission, GatewayAdmissionReservation, reserve,
  start_reserved, start_only, start_consumed, queued, full,
}
use realm_mesh.Gateway.Admission.Handle.{
  accept_result, abandons, handle_run, SettledOnce, handle_run-SettledOnce,
}
use realm_mesh.Gateway.Admission.Login.{in_memory, reserve_authentic, handed_over_once}

abbrev claims : IdentityClaims
claims = record { jti = jti 97; account_id = 77; expires_at = 340 * second }

abbrev grant : GrantClaims
grant = record { grant_jti = jti 98; expires_at = 500 * second }

abbrev pub verifiers : Verifiers
verifiers = record {
  validate_identity = λ token issuer now. some claims;
  validate_grant = λ token bound expires now. some grant;
}

abbrev pub gateway : Store → GatewayAdmission Store
gateway s = record { identity_issuer = 105 ∷ []; store = s; next_probe = none }

abbrev handle : GatewayAdmissionReservation
handle = record { account_id = 77; reservation = reservation; terminal = false }

login_starts :
    reserve (in_memory first_byte) verifiers (gateway empty_store) [] [] (120 ∷ []) (100 * second)
    ≡ ok (gateway leased, record { status = start_reserved; reservation = some handle })
unfolding reserve Consumption.reserve text_eq all_of
login_starts = refl

reserve_authentic_example :
    (identity : IdentityClaims) × (claims' : GrantClaims) × (some claims ≡ some identity)
    × (some grant ≡ some claims')
    × (77 ≡ identity.account_id)
    × (false ≡ false)
    × (request : AdmissionReserveRequest) × (request.identity_jti ≡ identity.jti)
    × (request.grant_jti ≡ claims'.grant_jti)
    × (request.owner ≡ 120 ∷ [])
    × (request.now ≡ 100 * second)
    × (request.consume_until ≡ min identity.expires_at claims'.expires_at + 60 * second)
    × (answer : AdmissionReserveResult) × ((in_memory first_byte).reserve empty_store request
        ≡ ok (leased, answer))
    × (answer.status ≡ reserved)
    × (answer.reservation ≡ some reservation)
reserve_authentic_example =
    reserve_authentic (in_memory first_byte) verifiers (gateway empty_store) (gateway leased) [] []
      (120 ∷ []) (100 * second) (record { status = start_reserved; reservation = some handle })
      handle login_starts refl

handle_run-SettledOnce_example :
    SettledOnce
      (in_memory first_byte)
      leased
      reservation
      (handle_run
        (in_memory first_byte)
        (gateway leased, handle)
        (accept_result full (101 * second)
          ∷ accept_result queued (102 * second)
          ∷ abandons (103 * second)
          ∷ [])).0.store
handle_run-SettledOnce_example =
    handle_run-SettledOnce (in_memory first_byte)
      (accept_result full (101 * second)
        ∷ accept_result queued (102 * second)
        ∷ abandons (103 * second)
        ∷ [])
      (gateway leased) handle refl

leased_has : leased.records identity ≡ some leased_record
unfolding insert_or_assign text_eq
leased_has = refl

nothing_more : handed_over ≡ run first_byte handed_over []
unfolding run
nothing_more = refl

second_login :
    reserve (in_memory first_byte) verifiers (gateway handed_over) [] [] (121 ∷ []) (300 * second)
    ≡ ok (gateway handed_over, start_only start_consumed)
unfolding reserve Consumption.reserve text_eq all_of insert_or_assign
second_login = refl

handed_over_once_example : (start_only start_consumed).reservation ≡ none
handed_over_once_example =
    handed_over_once first_byte leased handed_over reservation (105 * second) identity leased_record
      [] verifiers (gateway handed_over) (gateway handed_over) [] [] (121 ∷ []) (300 * second)
      claims (start_only start_consumed) digest_identity leased_has refl commit_runs tt nothing_more
      refl digest_identity (omega arith) second_login

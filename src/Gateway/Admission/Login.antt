-- ===== src/Gateway/Admission/Login.antt =====
-- A login through gateway_admission.cpp: the credentials that reach the store, and the logins after it.
use realm_mesh.Prelude.{
  ℕ, ◌+◌, ◌*◌, min, ◌≤◌, ◌<◌, ◌≡◌, refl, ◌⊎◌, inl, inr, List, false, arith, ok, Option, none, some,
  Text, All, Option-cases, Result-cases,
}
use realm_mesh.Gateway.Consumption.{
  AdmissionReserveRequest, AdmissionReserveResult, AdmissionReserveStatus, reserved, in_progress,
  Store, StoredRecord, AdmissionReservation, AdmissionMutationStatus, second, stable_digest, refuse,
  consumed, unavailable, applied, consumed_state, reserved_state, normalized,
}
use realm_mesh.Gateway.Consumption
use realm_mesh.Gateway.Consumption.SingleUse.{Operation, time_of, run, reserve_refused}
use realm_mesh.Gateway.Consumption.Fencing.{commit_applied}
use realm_mesh.Gateway.Admission.{
  ConsumptionStore, Verifiers, IdentityClaims, GrantClaims, GatewayAdmission,
  GatewayAdmissionReservation, GatewayAdmissionStartResult, reserve, request_of, start_result,
}

pub start_result-some :
    (account : ℕ) (status : AdmissionReserveStatus) (o : Option AdmissionReservation)
    (r : GatewayAdmissionReservation)
    → (start_result account status o).reservation ≡ some r
    → (status ≡ reserved)
      × (o ≡ some r.reservation)
      × (r.account_id ≡ account)
      × (r.terminal ≡ false)
unfolding start_result
start_result-some account reserved (some x) r e = ground arith
start_result-some account reserved none r e = cc
start_result-some account in_progress o r e = cc
start_result-some account consumed o r e = cc
start_result-some account unavailable o r e = cc

module _ {S : Type 0} (ops : ConsumptionStore S) where
  reserve_cases :
      (v : Verifiers) (g g' : GatewayAdmission S) (token grant owner : Text) (now : ℕ)
      (start : GatewayAdmissionStartResult) (r : GatewayAdmissionReservation)
      → reserve ops v g token grant owner now ≡ ok (g', start)
      → start.reservation ≡ some r
      → (identity : IdentityClaims) × (claims : GrantClaims) × (v.validate_identity token
            g.identity_issuer now
          ≡ some identity)
        × (v.validate_grant grant identity.jti identity.expires_at now ≡ some claims)
        × (r.account_id ≡ identity.account_id)
        × (r.terminal ≡ false)
        × (answer : AdmissionReserveResult) × (ops.reserve g.store
              (request_of identity claims owner now)
            ≡ ok (g'.store, answer))
        × (answer.status ≡ reserved)
        × (answer.reservation ≡ some r.reservation)
  unfolding reserve
  reserve_cases v g g' token grant owner now start r e f =
      elim (Option-cases (v.validate_identity token g.identity_issuer now)) [
        | inl no_identity ↦ absurd (ground arith)
        | inr (identity, i) ↦
            elim (Option-cases (v.validate_grant grant identity.jti identity.expires_at now)) [
              | inl no_grant ↦ absurd (ground arith)
              | inr (claims, c) ↦
                  elim (Result-cases (ops.reserve g.store (request_of identity claims owner now))) [
                    | inr (x, thrown) ↦ absurd (ground arith)
                    | inl ((s, answer), asked) ↦
                        let told : start
                            ≡ start_result identity.account_id answer.status answer.reservation =
                          ground arith in
                        let got =
                          start_result-some identity.account_id answer.status answer.reservation r
                            (rw told at f) in
                        (identity, claims, i, c, got.2, got.3, answer, ground arith, got.0, got.1)
                  ]
            ]
      ]

request_of_fields :
    (identity : IdentityClaims) (claims : GrantClaims) (owner : Text) (now : ℕ)
    → ((request_of identity claims owner now).identity_jti ≡ identity.jti)
      × ((request_of identity claims owner now).now ≡ now)
      × ((request_of identity claims owner now).grant_jti ≡ claims.grant_jti)
      × ((request_of identity claims owner now).owner ≡ owner)
      × ((request_of identity claims owner now).consume_until
          ≡ min identity.expires_at claims.expires_at + 60 * second)
unfolding request_of
request_of_fields identity claims owner now = (refl, refl, refl, refl, refl)

-- A reservation is handed out only for two credentials that both verify, the grant against the
-- identity, and only if the store gives one for a request that names exactly this pair and the owner, at
-- this time, retained until the earlier of the two ends and the leeway of 60 seconds are over. The
-- reservation is open, and carries the account of the identity.
pub reserve_authentic :
    {S : Type 0} (ops : ConsumptionStore S) (v : Verifiers) (g g' : GatewayAdmission S)
    (token grant owner : Text) (now : ℕ) (start : GatewayAdmissionStartResult)
    (r : GatewayAdmissionReservation)
    → reserve ops v g token grant owner now ≡ ok (g', start)
    → start.reservation ≡ some r
    → (identity : IdentityClaims) × (claims : GrantClaims) × (v.validate_identity token
          g.identity_issuer now
        ≡ some identity)
      × (v.validate_grant grant identity.jti identity.expires_at now ≡ some claims)
      × (r.account_id ≡ identity.account_id)
      × (r.terminal ≡ false)
      × (request : AdmissionReserveRequest) × (request.identity_jti ≡ identity.jti)
      × (request.grant_jti ≡ claims.grant_jti)
      × (request.owner ≡ owner)
      × (request.now ≡ now)
      × (request.consume_until ≡ min identity.expires_at claims.expires_at + 60 * second)
      × (answer : AdmissionReserveResult) × (ops.reserve g.store request ≡ ok (g'.store, answer))
      × (answer.status ≡ reserved)
      × (answer.reservation ≡ some r.reservation)
reserve_authentic ops v g g' token grant owner now start r e f =
    let (identity, claims, i, c, account, is_open, answer, asked, status, given) =
      reserve_cases ops v g g' token grant owner now start r e f in
    let (jti, at, named, owned, until) = request_of_fields identity claims owner now in
    (
      identity,
      claims,
      i,
      c,
      account,
      is_open,
      request_of identity claims owner now,
      jti,
      named,
      owned,
      at,
      until,
      answer,
      asked,
      status,
      given,
    )

-- The store in memory behind the interface.
abbrev pub in_memory : (Text → Option (List ℕ)) → ConsumptionStore Store
in_memory digest = record {
  reserve = Consumption.reserve digest;
  commit = Consumption.commit digest;
  release = Consumption.release digest;
  available = λ s. s.available;
  probe = λ s. (s, s.available);
}

-- A login that was handed over is not opened again: once `commit` has turned a reserved record of the
-- identity into a consumed one, then whatever the clients of the store do and whatever credentials of
-- that identity a gateway is shown up to the end of the retention, it hands out no reservation.
pub handed_over_once :
    (digest : Text → Option (List ℕ)) (s t : Store) (v : AdmissionReservation) (now : ℕ)
    (identity : Text) (old : StoredRecord) (os : List Operation) (verifiers : Verifiers)
    (g g' : GatewayAdmission Store) (token grant owner : Text) (later : ℕ) (claims : IdentityClaims)
    (start : GatewayAdmissionStartResult)
    → stable_digest digest v.identity_jti ≡ ok identity
    → s.records identity ≡ some old
    → old.state ≡ reserved_state
    → Consumption.commit digest s v now ≡ ok (t, applied)
    → All (λ o. time_of o ≤ normalized v.consume_until) os
    → g.store ≡ run digest t os
    → verifiers.validate_identity token g.identity_issuer later ≡ some claims
    → stable_digest digest claims.jti ≡ ok identity
    → later ≤ normalized v.consume_until
    → reserve (in_memory digest) verifiers g token grant owner later ≡ ok (g', start)
    → start.reservation ≡ none
handed_over_once digest s t v now identity old os verifiers g g' token grant owner later claims
      start d found was done times here who d' k answered =
    elim (Option-cases start.reservation) [
      | inl e ↦ e
      | inr (r, e) ↦
          let (ident, gc, i, _, _, _, answer, asked, _, given) =
            reserve_cases (in_memory digest) verifiers g g' token grant owner later start r answered
              e in
          let req = request_of_fields ident gc owner later in
          let (x, q, f0, f1, f2, _, _, how) = commit_applied digest s t v now identity d done in
          let refused =
            reserve_refused digest t os identity (normalized v.consume_until)
              (request_of ident gc owner later) g'.store answer (q, f1, f2, retained x q f0 how)
              times (rw req.0 (cc (i, who, d'))) (rw req.1 k) (rw (← here) asked) in
          elim refused.1 [ inl no_one ↦ cc | inr off ↦ cc ]
    ]
  where
    retained :
        (x q : StoredRecord)
        → s.records identity ≡ some x
        → ((x.state ≡ consumed_state) × (q.consume_until ≡ x.consume_until))
          ⊎ ((x.owner ≡ v.owner)
              × (normalized now < x.lease_expires_at)
              × (q.consume_until ≡ normalized v.consume_until))
        → normalized v.consume_until ≤ q.consume_until
    retained x q f (inl (c, _)) = absurd (cc)
    retained x q f (inr (_, _, e)) = omega (arith, e)

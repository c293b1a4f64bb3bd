-- ===== src/Gateway/Admission.antt =====
-- game/gateway/src/gateway_admission.cpp: the credentials of a login, and the two-phase use of its
-- reservation. The consumption store is the interface `ConsumptionStore`, over the states of a store;
-- the two token verifiers are functions. A time point is a count of nanoseconds since the epoch.
pub mod Handle
pub mod Tests
pub mod Login
use realm_mesh.Prelude.{
  ℕ, ◌+◌, ◌*◌, min, List, [], ◌∷◌, Bool, true, false, ltb, if◌then◌else◌, Option, none, some,
  Result, ok, err, ◌>>=◌, ◌>>◌, throw_if, invalid_argument, Text, length, ◌==◌,
}
use realm_mesh.Gateway.Consumption.{
  AdmissionReserveRequest, AdmissionReservation, AdmissionReserveResult, AdmissionReserveStatus,
  AdmissionMutationStatus, reserved, in_progress, consumed, unavailable, applied, lost,
  mutation_unavailable, second,
}

-- class AdmissionConsumptionStore
pub record ConsumptionStore (S : Type 0) : Type 0 where
  pub reserve : S → AdmissionReserveRequest → Result (S × AdmissionReserveResult)
  pub commit : S → AdmissionReservation → ℕ → Result (S × AdmissionMutationStatus)
  pub release : S → AdmissionReservation → ℕ → Result (S × AdmissionMutationStatus)
  pub available : S → Bool
  pub probe : S → S × Bool

-- What the gateway reads of the claims of the two credentials.
pub record IdentityClaims : Type 0 where
  pub jti : Text
  pub account_id : ℕ
  pub expires_at : ℕ

pub record GrantClaims : Type 0 where
  pub grant_jti : Text
  pub expires_at : ℕ

pub record Verifiers : Type 0 where
  pub validate_identity : Text → Text → ℕ → Option IdentityClaims
  pub validate_grant : Text → Text → ℕ → ℕ → Option GrantClaims

pub data GatewayAdmissionStartStatus : Type 0 where
  start_reserved invalid_credentials start_in_progress start_consumed start_unavailable :
      GatewayAdmissionStartStatus

pub data GatewayAdmissionTransitionStatus : Type 0 where
  pending transition_applied transition_lost transition_unavailable :
      GatewayAdmissionTransitionStatus

pub data PrimaryTransportResult : Type 0 where
  queued full stopped : PrimaryTransportResult

pub record GatewayAdmissionReservation : Type 0 where
  pub account_id : ℕ
  pub reservation : AdmissionReservation
  pub terminal : Bool

pub record GatewayAdmissionStartResult : Type 0 where
  pub status : GatewayAdmissionStartStatus
  pub reservation : Option GatewayAdmissionReservation

-- `store` is the state of the store that `store_` points to.
pub record GatewayAdmission (S : Type 0) : Type 0 where
  pub identity_issuer : Text
  pub store : S
  pub next_probe : Option ℕ

pub construct : {S : Type 0} → Text → S → Result (GatewayAdmission S)
construct issuer store = do
  throw_if (length issuer == 0) invalid_argument
  ok (record { identity_issuer = issuer; store = store; next_probe = none })

abbrev pub start_only : GatewayAdmissionStartStatus → GatewayAdmissionStartResult
start_only s = record { status = s; reservation = none }

-- The switch of `reserve` on the answer of the store.
unfoldable pub start_result :
    ℕ → AdmissionReserveStatus → Option AdmissionReservation → GatewayAdmissionStartResult
start_result account reserved none = start_only start_unavailable
start_result account reserved (some r) = record {
  status = start_reserved;
  reservation = some (record { account_id = account; reservation = r; terminal = false });
}
start_result account in_progress r = start_only start_in_progress
start_result account consumed r = start_only start_consumed
start_result account unavailable r = start_only start_unavailable

pub transition_status : AdmissionMutationStatus → GatewayAdmissionTransitionStatus
transition_status applied = transition_applied
transition_status lost = transition_lost
transition_status mutation_unavailable = transition_unavailable

-- The request that `reserve` makes of two verified credentials.
pub request_of : IdentityClaims → GrantClaims → Text → ℕ → AdmissionReserveRequest
request_of identity grant owner now = record {
  identity_jti = identity.jti;
  grant_jti = grant.grant_jti;
  owner = owner;
  now = now;
  consume_until = min identity.expires_at grant.expires_at + 60 * second;
}

-- What the store makes of a change of state, and what is reported of it.
pub settle :
    {S : Type 0}
    → GatewayAdmission S
    → Result (S × AdmissionMutationStatus)
    → Result (GatewayAdmission S × GatewayAdmissionTransitionStatus)
unfolding transition_status
settle g answer = do (s, status) ← answer; ok (record g { store = s }, transition_status status)

module _ {S : Type 0} (ops : ConsumptionStore S) where
  unfoldable pub reserve :
      Verifiers
      → GatewayAdmission S
      → Text
      → Text
      → Text
      → ℕ
      → Result (GatewayAdmission S × GatewayAdmissionStartResult)
  unfolding request_of start_result
  reserve v g identity_token admission_grant owner now =
      elim (v.validate_identity identity_token g.identity_issuer now) [
        | none ↦ ok (g, start_only invalid_credentials)
        | some identity ↦
            elim (v.validate_grant admission_grant identity.jti identity.expires_at now) [
              | none ↦ ok (g, start_only invalid_credentials)
              | some grant ↦ do
                (s, stored) ← ops.reserve g.store (request_of identity grant owner now)
                ok (
                  record g { store = s },
                  start_result identity.account_id stored.status stored.reservation,
                )
            ]
      ]

  -- The handle is settled before the store is called, so also where the store throws.
  unfoldable pub on_accept_result :
      GatewayAdmission S
      → GatewayAdmissionReservation
      → PrimaryTransportResult
      → ℕ
      → GatewayAdmissionReservation × Result (GatewayAdmission S × GatewayAdmissionTransitionStatus)
  unfolding settle
  on_accept_result g r result now =
      if r.terminal then (r, ok (g, transition_lost)) else elim result [
        | full ↦ (r, ok (g, pending))
        | stopped ↦ (record r { terminal = true }, settle g (ops.release g.store r.reservation now))
        | queued ↦ (record r { terminal = true }, settle g (ops.commit g.store r.reservation now))
      ]

  unfoldable pub abandon :
      GatewayAdmission S
      → GatewayAdmissionReservation
      → ℕ
      → GatewayAdmissionReservation × Result (GatewayAdmission S × GatewayAdmissionTransitionStatus)
  unfolding settle
  abandon g r now =
      if r.terminal
      then (r, ok (g, transition_lost))
      else (record r { terminal = true }, settle g (ops.release g.store r.reservation now))

  pub available : GatewayAdmission S → Bool
  available g = ops.available g.store

  -- The probe of the store, at most once a second.
  pub refresh_availability : GatewayAdmission S → ℕ → GatewayAdmission S × Bool
  refresh_availability g now =
      let recent = elim g.next_probe as (λ _. Bool) [ none ↦ false | some t ↦ ltb now t ] in
      if recent then (g, ops.available g.store) else (
        record g { store = (ops.probe g.store).0; next_probe = some (now + second) },
        (ops.probe g.store).1,
      )

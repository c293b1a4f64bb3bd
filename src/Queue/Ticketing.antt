-- ===== src/Queue/Ticketing.antt =====
-- game/queue/src/queue_ticketing.cpp: numbers and grants for players. The store, the two codecs of
-- signed tokens and the hash function are the operations of `TicketOps`. What a call that throws leaves
-- behind, in `issue` the stored number and the restored core if the codec throws, is not kept by `Result`.
pub mod Grants
mod Tests
use realm_mesh.Prelude.{
  ℕ, zero, suc, ◌+◌, ◌-◌, ◌*◌, ◌/◌, ◌%◌, ◌^◌, min, List, [], ◌∷◌, ◌++◌, Bool, ◌||◌, ltb, ◌==◌,
  if◌then◌else◌, Option, none, some, Text, codes, add64, sub64, Result, ok, err, runtime_error,
  ◌>>=◌,
}
use realm_mesh.Queue.Core.{
  QueueCore, QueueSnapshot, QueueReleaseStatus, not_released, eligible, expired,
  QueueReleaseEligibility, second, snapshot, restore, admit_rate, release_eligibility,
}
use realm_mesh.Gateway.Consumption.{hex}

pub data QueueIssueStatus : Type 0 where
  issued recovered issue_unavailable : QueueIssueStatus

pub record QueueIssueRequest : Type 0 where
  pub identity_jti : Text
  pub issued_at : ℕ
  pub identity_expires_at : ℕ
  pub snapshot : QueueSnapshot

pub record QueueIssueResult : Type 0 where
  pub status : QueueIssueStatus
  pub number : ℕ
  pub issued_at : ℕ
  pub snapshot : QueueSnapshot

pub record QueueNumberIssue : Type 0 where
  pub identity_jti : Text
  pub number : ℕ
  pub issued_at : ℕ
  pub identity_expires_at : ℕ

pub record QueueNumberClaims : Type 0 where
  pub identity_jti : Text
  pub number : ℕ
  pub issued_at : ℕ
  pub expires_at : ℕ

pub record AdmissionGrantIssue : Type 0 where
  pub grant_jti : Text
  pub identity_jti : Text
  pub queue_number : ℕ
  pub released_at : ℕ
  pub issued_at : ℕ
  pub identity_expires_at : ℕ

pub record TicketOps (S : Type 0) : Type 0 where
  pub issue_or_recover : S → QueueIssueRequest → Result (S × QueueIssueResult)
  pub issue_number : QueueNumberIssue → Result Text
  pub validate_number : Text → ℕ → Option QueueNumberClaims
  pub issue_grant : AdmissionGrantIssue → Result Text
  pub grant_window : ℕ
  pub generichash : List ℕ → Option (List ℕ)

pub record IssuedQueueTicket : Type 0 where
  pub status : QueueIssueStatus
  pub queue_number_token : Text
  pub number : ℕ
  pub estimated_wait_seconds : ℕ

pub data QueueTicketQueryStatus : Type 0 where
  queued admitted invalid_queue_number release_expired : QueueTicketQueryStatus

pub record QueueTicketQuery : Type 0 where
  pub status : QueueTicketQueryStatus
  pub number : ℕ
  pub position : ℕ
  pub estimated_wait_seconds : ℕ
  pub admission_grant : Option Text
  pub admission_grant_expires_in_seconds : ℕ

pub estimate_wait : ℕ → ℕ → ℕ
estimate_wait position rate =
    if position == 0 || rate == 0 then 0 else sub64 (add64 position rate) 1 / rate

-- The bytes of a number, the high ones first.
pub big_endian : ℕ → ℕ → List ℕ
big_endian zero value = []
big_endian (suc k) value = value / 256 ^ k % 256 ∷ big_endian k value

abbrev hashed : Option (List ℕ) → Result Text
hashed none = err runtime_error
hashed (some digest) = ok (hex digest)

-- The fields of the reply of a query that are not set.
abbrev pub answer : QueueTicketQueryStatus → ℕ → QueueTicketQuery
answer status number = record {
  status = status;
  number = number;
  position = 0;
  estimated_wait_seconds = 0;
  admission_grant = none;
  admission_grant_expires_in_seconds = 0;
}

module _ {S : Type 0} (ops : TicketOps S) where
  pub deterministic_grant_jti : Text → ℕ → ℕ → Result Text
  unfolding big_endian
  deterministic_grant_jti identity_jti queue_number released_at = hashed (
      ops.generichash (
        codes "realmmesh/admission-grant-jti/v1"
        ++ 0 ∷ identity_jti
        ++ big_endian 8 queue_number
        ++ big_endian 8 (released_at / second)))

  abbrev ticket_of : QueueCore → QueueIssueResult → ℕ → Text → IssuedQueueTicket
  ticket_of c result now token = record {
    status = result.status;
    queue_number_token = token;
    number = result.number;
    estimated_wait_seconds =
        estimate_wait
          (if ltb c.released_number result.number then result.number - c.released_number else 0)
          (admit_rate c now);
  }

  -- `issue` behind the store.
  issue_result :
      QueueCore
      → S
      → Text
      → ℕ
      → ℕ
      → QueueIssueStatus
      → QueueIssueResult
      → Result (QueueCore × S × IssuedQueueTicket)
  unfolding estimate_wait
  issue_result c s jti expires_at now issue_unavailable result = ok (
    c,
    s,
    record {
      status = issue_unavailable;
      queue_number_token = [];
      number = 0;
      estimated_wait_seconds = 0;
    },
  )
  issue_result c s jti expires_at now status result = restore c result.snapshot now >>= λ d.
      ops.issue_number (record {
        identity_jti = jti;
        number = result.number;
        issued_at = result.issued_at;
        identity_expires_at = expires_at;
      })
      >>= λ token. ok (d, s, ticket_of d result now token)

  pub issue : QueueCore → S → Text → ℕ → ℕ → Result (QueueCore × S × IssuedQueueTicket)
  unfolding issue_result
  issue c s jti expires_at now =
      ops.issue_or_recover s (record {
        identity_jti = jti;
        issued_at = now;
        identity_expires_at = expires_at;
        snapshot = snapshot c now;
      })
      >>= λ stored. issue_result c stored.0 jti expires_at now stored.1.status stored.1

  abbrev pub grant_request : QueueNumberClaims → ℕ → Text → AdmissionGrantIssue
  grant_request claims released_at jti = record {
    grant_jti = jti;
    identity_jti = claims.identity_jti;
    queue_number = claims.number;
    released_at = released_at;
    issued_at = released_at;
    identity_expires_at = claims.expires_at;
  }

  -- The whole seconds up to the end of the grant; none once it is past.
  abbrev pub remaining : QueueNumberClaims → ℕ → ℕ → ℕ
  remaining claims now released_at =
      (min claims.expires_at (released_at + ops.grant_window * second) - now) / second

  abbrev pub admitted_answer : QueueNumberClaims → ℕ → ℕ → Text → QueueTicketQuery
  admitted_answer claims now released_at grant = record {
    status = admitted;
    number = claims.number;
    position = 0;
    estimated_wait_seconds = 0;
    admission_grant = some grant;
    admission_grant_expires_in_seconds = remaining claims now released_at;
  }

  -- The answer of a query for a released number.
  pub admit : QueueNumberClaims → ℕ → ℕ → Result QueueTicketQuery
  unfolding deterministic_grant_jti
  admit claims now released_at =
      deterministic_grant_jti claims.identity_jti claims.number released_at >>= λ jti.
      ops.issue_grant (grant_request claims released_at jti) >>= λ grant.
      ok (admitted_answer claims now released_at grant)

  abbrev pub answer_queued : QueueCore → QueueNumberClaims → ℕ → QueueTicketQuery
  answer_queued c claims now = record {
    status = queued;
    number = claims.number;
    position = sub64 claims.number c.released_number;
    estimated_wait_seconds =
        estimate_wait (sub64 claims.number c.released_number) (admit_rate c now);
    admission_grant = none;
    admission_grant_expires_in_seconds = 0;
  }

  -- The answer of a query with a valid token, by the state of the number.
  abbrev pub answer_of :
      QueueCore → QueueNumberClaims → ℕ → QueueReleaseStatus → ℕ → Result QueueTicketQuery
  answer_of c claims now not_released released_at = ok (answer_queued c claims now)
  answer_of c claims now expired released_at = ok (answer release_expired claims.number)
  answer_of c claims now eligible released_at =
      if ltb claims.expires_at released_at
      then ok (answer release_expired claims.number)
      else admit claims now released_at

  abbrev pub answer_valid : QueueCore → ℕ → Option QueueNumberClaims → Result QueueTicketQuery
  answer_valid c now none = ok (answer invalid_queue_number 0)
  answer_valid c now (some claims) =
      answer_of c claims now (release_eligibility c claims.number now).status
        (release_eligibility c claims.number now).released_at

  pub query : QueueCore → Text → ℕ → Result QueueTicketQuery
  unfolding estimate_wait admit
  query c token now = answer_valid c now (ops.validate_number token now)

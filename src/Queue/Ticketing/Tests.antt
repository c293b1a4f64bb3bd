-- ===== src/Queue/Ticketing/Tests.antt =====
-- A number that is released and asked for twice, and the theorems at concrete inputs.
use realm_mesh.Prelude.{
  arith, ℕ, ◌*◌, ◌+◌, ◌≤◌, ◌≡◌, refl, ◌⊎◌, [], ◌∷◌, some, Text, ok, err, runtime_error,
}
use realm_mesh.Queue.Core.Ledger.{IsConsistent}
use realm_mesh.Queue.Core.Evolution.{Evolves, unchanged, releasing}
use realm_mesh.Queue.Core.{release_batch, QueueCore, second, eligible, release_eligibility}
use realm_mesh.Gateway.Consumption.{hex}
use realm_mesh.Queue.Ticketing.{
  QueueNumberClaims, AdmissionGrantIssue, TicketOps, QueueTicketQuery, deterministic_grant_jti,
  admitted_answer, query,
}
use realm_mesh.Queue.Ticketing.Grants.{query_admitted, query_stable}

abbrev claims : QueueNumberClaims
claims = record {
  identity_jti = 97 ∷ [];
  number = 3;
  issued_at = 90 * second;
  expires_at = 900 * second;
}

-- The hash is the first byte of what is hashed; a grant is its name.
abbrev ops : TicketOps ℕ
ops = record {
  issue_or_recover = λ s request. err runtime_error;
  issue_number = λ request. ok [];
  validate_number = λ token now. some claims;
  issue_grant = λ request. ok request.grant_jti;
  grant_window = 300;
  generichash = λ bytes. some (18 ∷ []);
}

abbrev core : QueueCore
core = record {
  release_step = 5;
  rate_window = 10;
  grant_window = 300;
  released_number = 4;
  next_number = 6;
  release_batches_pruned_through = 0;
  release_batches = record { first_number = 1; last_number = 4; released_at = 100 * second } ∷ [];
}

abbrev reply : ℕ → QueueTicketQuery
reply now = admitted_answer ops claims now (100 * second) (hex (18 ∷ []))

admitted_first : query ops core [] (150 * second) ≡ ok (reply (150 * second))
unfolding query release_eligibility deterministic_grant_jti
admitted_first = refl

core-IsConsistent : IsConsistent core
core-IsConsistent = record {
  behind = omega arith;
  in_range = omega arith;
  covered = (refl, omega arith, omega arith, omega arith, refl);
}

-- One more batch, of number 5, is released between the two questions.
abbrev later_core : QueueCore
later_core = record core {
  released_number = 5;
  release_batches =
      record { first_number = 1; last_number = 4; released_at = 100 * second }
      ∷ record { first_number = 5; last_number = 5; released_at = 160 * second }
      ∷ [];
}

core_releases :
    release_batch core (record { gateway_admission = 9; realm_connections = 9 }) (160 * second)
    ≡ ok (later_core, 1)
unfolding release_batch
core_releases = refl

core-Evolves : Evolves (200 * second) core later_core
core-Evolves =
    releasing core later_core later_core (160 * second) 1
      (record { gateway_admission = 9; realm_connections = 9 }) core_releases (omega arith)
      (unchanged later_core)

admitted_later : query ops later_core [] (200 * second) ≡ ok (reply (200 * second))
unfolding query release_eligibility deterministic_grant_jti
admitted_later = refl

query_admitted_example :
    (found : QueueNumberClaims) × (t : ℕ) × (jti : Text) × (grant : Text) × (some claims
      ≡ some found)
    × (release_eligibility core found.number (150 * second)
        ≡ record { status = eligible; released_at = t })
    × (t ≤ found.expires_at)
    × (deterministic_grant_jti ops found.identity_jti found.number t ≡ ok jti)
    × (request : AdmissionGrantIssue) × (ops.issue_grant request ≡ ok grant)
    × (request.grant_jti ≡ jti)
    × (request.identity_jti ≡ found.identity_jti)
    × (request.queue_number ≡ found.number)
    × (request.released_at ≡ t)
    × (request.issued_at ≡ t)
    × (request.identity_expires_at ≡ found.expires_at)
    × (some (hex (18 ∷ [])) ≡ some grant)
    × (3 ≡ found.number)
    × (((reply (150 * second)).admission_grant_expires_in_seconds ≡ 0)
        ⊎ ((150 * second + (reply (150 * second)).admission_grant_expires_in_seconds * second
              ≤ found.expires_at)
            × (150 * second + (reply (150 * second)).admission_grant_expires_in_seconds * second
                ≤ t + 300 * second)))
query_admitted_example =
    query_admitted ops core [] (150 * second) (reply (150 * second)) admitted_first refl

query_stable_example :
    ((reply (150 * second)).admission_grant ≡ (reply (200 * second)).admission_grant)
    × ((reply (150 * second)).number ≡ (reply (200 * second)).number)
query_stable_example =
    query_stable ops core later_core [] (150 * second) (200 * second) (reply (150 * second))
      (reply (200 * second)) core-IsConsistent core-Evolves refl admitted_first admitted_later refl
      refl

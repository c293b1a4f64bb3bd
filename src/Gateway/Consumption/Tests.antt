-- ===== src/Gateway/Consumption/Tests.antt =====
-- Runs of the consumption store, and its theorems at concrete inputs.
use realm_mesh.Prelude.{
  ℕ, ◌*◌, ◌<◌, ◌≡◌, ◌≢◌, refl, ◌⊎◌, List, [], ◌∷◌, true, ok, err, arith, Option, some, none, Text,
  replicate, insert_or_assign, text_eq, all_of, invalid_argument,
}
use realm_mesh.Gateway.Consumption.{
  Store, StoredRecord, AdmissionReserveRequest, AdmissionReservation, reserve, commit,
  stable_digest, applied, lost, consumed, refuse, unavailable, reserved, consumed_state,
  reserved_state, second, normalized,
}
use realm_mesh.Gateway.Consumption.SingleUse.{IsConsumed, reserves, run, reserve_refused}
use realm_mesh.Gateway.Consumption.Fencing.{IsBounded, fence, commit_applied, stale_commit}

-- A digest for the tests: the first byte of the identifier.
abbrev pub first_byte : Text → Option (List ℕ)
first_byte [] = none
first_byte (c ∷ cs) = some (c ∷ [])

abbrev pub jti : ℕ → Text
jti c = replicate 32 c

abbrev pub empty_store : Store
empty_store = record { reservation_ttl = 10; records = λ k. none; available = true }

abbrev pub request : AdmissionReserveRequest
request = record {
  identity_jti = jti 97;
  grant_jti = jti 98;
  owner = 120 ∷ [];
  now = 100 * second;
  consume_until = 400 * second;
}

abbrev pub reservation : AdmissionReservation
reservation = record {
  identity_jti = jti 97;
  grant_jti = jti 98;
  owner = 120 ∷ [];
  fencing = 1;
  lease_expires_at = 110 * second;
  consume_until = 400 * second;
}

abbrev pub leased_record : StoredRecord
leased_record = record {
  state = reserved_state;
  grant_digest = 54 ∷ 50 ∷ [];
  owner = 120 ∷ [];
  fencing = 1;
  lease_expires_at = 110 * second;
  consume_until = 400 * second;
}

abbrev pub identity : Text
identity = 54 ∷ 49 ∷ []

abbrev pub leased : Store
leased = record empty_store { records = insert_or_assign identity leased_record (λ k. none) }

abbrev pub handed_over : Store
handed_over = record leased {
  records =
      insert_or_assign identity (record leased_record { state = consumed_state }) leased.records;
}

pub digest_identity : stable_digest first_byte (jti 97) ≡ ok identity
unfolding stable_digest
digest_identity = refl

reserve_runs :
    reserve first_byte empty_store request
    ≡ ok (leased, record { status = reserved; reservation = some reservation })
unfolding reserve text_eq all_of
reserve_runs = refl

pub commit_runs : commit first_byte leased reservation (105 * second) ≡ ok (handed_over, applied)
unfolding commit text_eq all_of insert_or_assign
commit_runs = refl

commit_late : commit first_byte leased reservation (110 * second) ≡ ok (leased, lost)
unfolding commit text_eq all_of insert_or_assign
commit_late = refl

reserve_rejected : reserve first_byte leased (record request { owner = [] }) ≡ err invalid_argument
unfolding reserve text_eq all_of
reserve_rejected = refl

handed_over-IsConsumed : IsConsumed handed_over identity (400 * second)
unfolding insert_or_assign text_eq
handed_over-IsConsumed = (record leased_record { state = consumed_state }, refl, refl, omega arith)

later_refused :
    reserve first_byte
      (run first_byte handed_over (reserves request ∷ []))
      (record request { now = 300 * second })
    ≡ ok (handed_over, refuse consumed)
unfolding reserve run text_eq all_of insert_or_assign
later_refused = refl

still_there : run first_byte handed_over (reserves request ∷ []) ≡ handed_over
unfolding reserve run text_eq all_of insert_or_assign
still_there = refl

reserve_refused_example :
    (handed_over ≡ run first_byte handed_over (reserves request ∷ []))
    × ((refuse consumed ≡ refuse consumed) ⊎ (refuse consumed ≡ refuse unavailable))
reserve_refused_example =
    reserve_refused first_byte handed_over (reserves request ∷ []) identity (400 * second)
      (record request { now = 300 * second }) handed_over (refuse consumed) handed_over-IsConsumed
      (omega arith) digest_identity (omega arith) later_refused

commit_applied_example :
    (r q : StoredRecord) × (leased.records identity ≡ some r)
    × (handed_over.records identity ≡ some q)
    × (q.state ≡ consumed_state)
    × (q.fencing ≡ 1)
    × (r.fencing ≡ 1)
    × (((r.state ≡ consumed_state) × (q.consume_until ≡ r.consume_until))
        ⊎ ((r.owner ≡ 120 ∷ [])
            × (normalized (105 * second) < r.lease_expires_at)
            × (q.consume_until ≡ normalized (400 * second))))
commit_applied_example =
    commit_applied first_byte leased handed_over reservation (105 * second) identity digest_identity
      commit_runs

-- The identity leased anew, under the fencing number 2.
abbrev leased_again : Store
leased_again = record leased {
  records = insert_or_assign identity (record leased_record { fencing = 2 }) (λ k. none);
}

leased_again-IsBounded : IsBounded leased_again
unfolding insert_or_assign
leased_again-IsBounded id = ground arith

stale_commit_runs :
    commit first_byte (run first_byte leased_again []) reservation (105 * second)
    ≡ ok (leased_again, lost)
unfolding commit run text_eq all_of insert_or_assign
stale_commit_runs = refl

leased_again_fence : 1 < fence (leased_again.records identity)
unfolding insert_or_assign text_eq
leased_again_fence = omega arith

stale_commit_example : lost ≢ applied
stale_commit_example =
    stale_commit first_byte leased_again [] reservation (105 * second) identity leased_again lost
      leased_again-IsBounded digest_identity leased_again_fence stale_commit_runs

-- ===== src/Gateway/Consumption/SingleUse.antt =====
-- The store in memory over a history: the records that are consumed.
use realm_mesh.Prelude.{
  ℕ, ◌≤◌, ◌<◌, ◌≡◌, ◌⊎◌, inl, inr, List, [], ◌∷◌, false, arith, Bool-cases, Option, some, ok, Text,
  text_eq, text_eq→eq, text_eq_refl, insert_or_assign, All,
}
use realm_mesh.Gateway.Consumption.Rules.{
  after, reserve_cases, reserve_rule, commit_rule, release_rule,
}
use realm_mesh.Gateway.Consumption.{
  Store, StoredRecord, AdmissionReserveRequest, AdmissionReservation, AdmissionReserveResult,
  consumed_state, is_consumed, normalized, matches, reserve_at, reserve_known, commit_known,
  release_known, reserve, commit, release, stable_digest, refuse, consumed, unavailable, applied,
  lost, matches,
}

pub data Operation : Type 0 where
  reserves : AdmissionReserveRequest → Operation
  commits releases : AdmissionReservation → ℕ → Operation

abbrev pub time_of : Operation → ℕ
time_of (reserves r) = r.now
time_of (commits r t) = t
time_of (releases r t) = t

-- The record of the identity is consumed, at least until `until`.
abbrev pub IsConsumed : Store → Text → ℕ → Type 0
IsConsumed s identity until =
    (r : StoredRecord) × (s.records identity ≡ some r)
    × (r.state ≡ consumed_state)
    × (until ≤ r.consume_until)

-- An operation on one identity leaves the records of the others.
pub reserve_at-other :
    (s : Store) (request : AdmissionReserveRequest) (identity grant id : Text)
    → text_eq id identity ≡ false
    → (reserve_at s request identity grant).0.records id ≡ s.records id
unfolding reserve_at insert_or_assign
reserve_at-other s request identity grant id e = ground arith

pub commit_known-other :
    (s : Store) (v : AdmissionReservation) (now : ℕ) (identity grant id : Text) (r : StoredRecord)
    → text_eq id identity ≡ false
    → (commit_known s v now identity grant r).0.records id ≡ s.records id
unfolding commit_known insert_or_assign
commit_known-other s v now identity grant id r e = ground arith

pub release_known-other :
    (s : Store) (v : AdmissionReservation) (now : ℕ) (identity grant id : Text) (r : StoredRecord)
    → text_eq id identity ≡ false
    → (release_known s v now identity grant r).0.records id ≡ s.records id
unfolding release_known insert_or_assign
release_known-other s v now identity grant id r e = ground arith

-- On a consumed record no operation up to the end of its retention does anything.
pub reserve_at-consumed :
    (s : Store) (request : AdmissionReserveRequest) (identity grant : Text) (until : ℕ)
    → IsConsumed s identity until
    → request.now ≤ until
    → reserve_at s request identity grant ≡ (s, refuse consumed)
unfolding reserve_at reserve_known
reserve_at-consumed s request identity grant until (r, e, c, k) h = ground arith

commit_known-consumed :
    (s : Store) (v : AdmissionReservation) (now : ℕ) (identity grant : Text) (r : StoredRecord)
    → r.state ≡ consumed_state
    → (commit_known s v now identity grant r).0 ≡ s
unfolding commit_known
commit_known-consumed s v now identity grant r e = ground arith

release_known-consumed :
    (s : Store) (v : AdmissionReservation) (now : ℕ) (identity grant : Text) (r : StoredRecord)
    → r.state ≡ consumed_state
    → release_known s v now identity grant r ≡ (s, lost)
unfolding release_known
release_known-consumed s v now identity grant r e = ground arith

reserve_at-IsConsumed :
    (s : Store) (request : AdmissionReserveRequest) (identity grant id : Text) (until : ℕ)
    → IsConsumed s id until
    → request.now ≤ until
    → IsConsumed (reserve_at s request identity grant).0 id until
reserve_at-IsConsumed s request identity grant id until c h =
    elim (Bool-cases (text_eq id identity)) [
      | inl e ↦
          let same = text_eq→eq id identity e in
          rw (reserve_at-consumed s request identity grant until (rw same at c) h) c
      | inr e ↦
          let (r, f, k, l) = c in (r, rw (reserve_at-other s request identity grant id e) f, k, l)
    ]

commit_known-IsConsumed :
    (s : Store) (v : AdmissionReservation) (now : ℕ) (identity grant id : Text) (r : StoredRecord)
    (until : ℕ)
    → s.records identity ≡ some r
    → IsConsumed s id until
    → IsConsumed (commit_known s v now identity grant r).0 id until
commit_known-IsConsumed s v now identity grant id r until f c =
    elim (Bool-cases (text_eq id identity)) [
      | inl e ↦
          let state : r.state ≡ consumed_state =
            ground (arith, c.1, c.2, f, text_eq→eq id identity e) in
          rw (commit_known-consumed s v now identity grant r state) c
      | inr e ↦ (c.0, rw (commit_known-other s v now identity grant id r e) c.1, c.2, c.3)
    ]

release_known-IsConsumed :
    (s : Store) (v : AdmissionReservation) (now : ℕ) (identity grant id : Text) (r : StoredRecord)
    (until : ℕ)
    → s.records identity ≡ some r
    → IsConsumed s id until
    → IsConsumed (release_known s v now identity grant r).0 id until
release_known-IsConsumed s v now identity grant id r until f c =
    elim (Bool-cases (text_eq id identity)) [
      | inl e ↦
          let state : r.state ≡ consumed_state =
            ground (arith, c.1, c.2, f, text_eq→eq id identity e) in
          rw (release_known-consumed s v now identity grant r state) c
      | inr e ↦ (c.0, rw (release_known-other s v now identity grant id r e) c.1, c.2, c.3)
    ]

module _ (digest : Text → Option (List ℕ)) where
  unfoldable pub step : Store → Operation → Store
  step s (reserves r) = after s (reserve digest s r)
  step s (commits r t) = after s (commit digest s r t)
  step s (releases r t) = after s (release digest s r t)

  unfoldable pub run : Store → List Operation → Store
  unfolding step
  run s [] = s
  run s (o ∷ os) = run (step s o) os

  step-IsConsumed :
      (s : Store) (o : Operation) (id : Text) (until : ℕ)
      → IsConsumed s id until
      → time_of o ≤ until
      → IsConsumed (step s o) id until
  unfolding step
  step-IsConsumed s (reserves r) id until c h =
      reserve_rule digest (λ t. IsConsumed t id until) s c r
        λ identity grant. reserve_at-IsConsumed s r identity grant id until c h
  step-IsConsumed s (commits v t) id until c h =
      commit_rule digest (λ t. IsConsumed t id until) s c v t
        λ identity grant r f. commit_known-IsConsumed s v t identity grant id r until f c
  step-IsConsumed s (releases v t) id until c h =
      release_rule digest (λ t. IsConsumed t id until) s c v t
        λ identity grant r f. release_known-IsConsumed s v t identity grant id r until f c

  pub run-IsConsumed :
      (os : List Operation) (s : Store) (id : Text) (until : ℕ)
      → IsConsumed s id until
      → All (λ o. time_of o ≤ until) os
      → IsConsumed (run s os) id until
  unfolding run
  run-IsConsumed [] s id until c h = c
  run-IsConsumed (o ∷ os) s id until c (h, hs) =
      run-IsConsumed os (step s o) id until (step-IsConsumed s o id until c h) hs

  -- If the record of an identity is consumed, then whatever the clients do, up to the end of its
  -- retention, no request for the identity gets a reservation: it is told that the credential is consumed, or that the store is
  -- not available, and changes nothing.
  pub reserve_refused :
      (s : Store) (os : List Operation) (identity : Text) (until : ℕ)
      (request : AdmissionReserveRequest) (t : Store) (result : AdmissionReserveResult)
      → IsConsumed s identity until
      → All (λ o. time_of o ≤ until) os
      → stable_digest digest request.identity_jti ≡ ok identity
      → request.now ≤ until
      → reserve digest (run s os) request ≡ ok (t, result)
      → (t ≡ run s os) × ((result ≡ refuse consumed) ⊎ (result ≡ refuse unavailable))
  reserve_refused s os identity until request t result c h d k e =
      elim (reserve_cases digest (run s os) identity request t result d e) [
        | inl (_, p, q) ↦ (p, inr q)
        | inr (grant, _, _, p, q) ↦
            let still =
              reserve_at-consumed (run s os) request identity grant until
                (run-IsConsumed os s identity until c h) k in
            (cc (p, still), inl (cc (q, still)))
      ]

-- What `commit` does to a record that it reports as applied.
pub commit_known_applied :
    (s : Store) (v : AdmissionReservation) (now : ℕ) (identity grant : Text) (r : StoredRecord)
    → s.records identity ≡ some r
    → (commit_known s v now identity grant r).1 ≡ applied
    → (q : StoredRecord) × ((commit_known s v now identity grant r).0.records identity ≡ some q)
      × (q.state ≡ consumed_state)
      × (q.fencing ≡ v.fencing)
      × (q.grant_digest ≡ grant)
      × (r.fencing ≡ v.fencing)
      × (((r.state ≡ consumed_state) × (q.consume_until ≡ r.consume_until))
          ⊎ ((r.owner ≡ v.owner)
              × (normalized now < r.lease_expires_at)
              × (q.consume_until ≡ normalized v.consume_until)))
unfolding commit_known matches insert_or_assign
commit_known_applied s v now identity grant r f e = elim (Bool-cases (is_consumed r.state)) [
  | inl c ↦ (
    r,
    ground arith,
    ground arith,
    ground arith,
    ground (arith, text_eq→eq r.grant_digest grant),
    ground arith,
    ground arith,
  )
  | inr c ↦ (
    record r { state = consumed_state; consume_until = normalized v.consume_until },
    ground (arith, text_eq_refl identity),
    ground arith,
    ground arith,
    ground (arith, text_eq→eq r.grant_digest grant),
    ground arith,
    ground (arith, text_eq→eq r.owner v.owner),
  )
]

-- ===== src/Gateway/Consumption/Fencing.antt =====
-- The store in memory over a history: the fencing numbers of the leases.
use realm_mesh.Prelude.{
  ℕ, ◌≤◌, ◌<◌, ◌≡◌, ◌≢◌, sym, ap, ◌⊎◌, inl, inr, List, [], ◌∷◌, arith, Bool-cases, Option, none,
  some, ok, Text, text_eq, text_eq→eq, text_eq_refl, insert_or_assign, IsU64,
}
use realm_mesh.Gateway.Consumption.{
  Store, StoredRecord, AdmissionReserveRequest, AdmissionReservation, AdmissionMutationStatus,
  consumed_state, normalized, reserve_at, commit_known, release_known, commit, stable_digest,
  applied,
}
use realm_mesh.Gateway.Consumption.Rules.{commit_cases, reserve_rule, commit_rule, release_rule}
use realm_mesh.Gateway.Consumption.SingleUse.{
  Operation, reserves, commits, releases, step, run, reserve_at-other, commit_known-other,
  release_known-other, commit_known_applied,
}

-- The last fencing number that the identity was given, 0 for none.
abbrev pub fence : Option StoredRecord → ℕ
fence none = 0
fence (some r) = r.fencing

abbrev pub IsBounded : Store → Type 0
IsBounded s = (id : Text) → IsU64 (fence (s.records id))

-- A step that does not lower the fence of any identity, and keeps the fences in the range.
abbrev pub Raises : Store → Store → Type 0
Raises s t =
    (id : Text) → (fence (s.records id) ≤ fence (t.records id)) × IsU64 (fence (t.records id))

reserve_at-fence :
    (s : Store) (request : AdmissionReserveRequest) (identity grant : Text)
    → IsU64 (fence (s.records identity))
    → (fence (s.records identity)
        ≤ fence ((reserve_at s request identity grant).0.records identity))
      × IsU64 (fence ((reserve_at s request identity grant).0.records identity))
unfolding reserve_at insert_or_assign
reserve_at-fence s request identity grant h = ground (arith, text_eq_refl identity)

commit_known-fence :
    (s : Store) (v : AdmissionReservation) (now : ℕ) (identity grant : Text) (r : StoredRecord)
    → s.records identity ≡ some r
    → fence ((commit_known s v now identity grant r).0.records identity) ≡ r.fencing
unfolding commit_known insert_or_assign
commit_known-fence s v now identity grant r e = ground (arith, text_eq_refl identity)

release_known-fence :
    (s : Store) (v : AdmissionReservation) (now : ℕ) (identity grant : Text) (r : StoredRecord)
    → s.records identity ≡ some r
    → fence ((release_known s v now identity grant r).0.records identity) ≡ r.fencing
unfolding release_known insert_or_assign
release_known-fence s v now identity grant r e = ground (arith, text_eq_refl identity)

reserve_at-Raises :
    (s : Store) (request : AdmissionReserveRequest) (identity grant : Text)
    → IsBounded s
    → Raises s (reserve_at s request identity grant).0
reserve_at-Raises s request identity grant b id = elim (Bool-cases (text_eq id identity)) [
  | inl e ↦ rw (text_eq→eq id identity e) (reserve_at-fence s request identity grant (b identity))
  | inr e ↦
      let same = ap fence (reserve_at-other s request identity grant id e) in
      (omega (arith, same), omega (arith, same, b id))
]

commit_known-Raises :
    (s : Store) (v : AdmissionReservation) (now : ℕ) (identity grant : Text) (r : StoredRecord)
    → IsBounded s
    → s.records identity ≡ some r
    → Raises s (commit_known s v now identity grant r).0
commit_known-Raises s v now identity grant r b f id = elim (Bool-cases (text_eq id identity)) [
  | inl e ↦
      let same = commit_known-fence s v now identity grant r f in
      let was = ap fence f in
      rw (text_eq→eq id identity e) (omega (arith, same, was), omega (arith, same, was, b identity))
  | inr e ↦
      let same = ap fence (commit_known-other s v now identity grant id r e) in
      (omega (arith, same), omega (arith, same, b id))
]

release_known-Raises :
    (s : Store) (v : AdmissionReservation) (now : ℕ) (identity grant : Text) (r : StoredRecord)
    → IsBounded s
    → s.records identity ≡ some r
    → Raises s (release_known s v now identity grant r).0
release_known-Raises s v now identity grant r b f id = elim (Bool-cases (text_eq id identity)) [
  | inl e ↦
      let same = release_known-fence s v now identity grant r f in
      let was = ap fence f in
      rw (text_eq→eq id identity e) (omega (arith, same, was), omega (arith, same, was, b identity))
  | inr e ↦
      let same = ap fence (release_known-other s v now identity grant id r e) in
      (omega (arith, same), omega (arith, same, b id))
]

module _ (digest : Text → Option (List ℕ)) where
  step-Raises : (s : Store) (o : Operation) → IsBounded s → Raises s (step digest s o)
  unfolding step
  step-Raises s (reserves r) b =
      reserve_rule digest (Raises s) s (λ id. (omega arith, b id)) r
        λ identity grant. reserve_at-Raises s r identity grant b
  step-Raises s (commits v t) b =
      commit_rule digest (Raises s) s (λ id. (omega arith, b id)) v t
        λ identity grant r f. commit_known-Raises s v t identity grant r b f
  step-Raises s (releases v t) b =
      release_rule digest (Raises s) s (λ id. (omega arith, b id)) v t
        λ identity grant r f. release_known-Raises s v t identity grant r b f

  -- No history lowers the fence of an identity.
  pub run-Raises : (os : List Operation) (s : Store) → IsBounded s → Raises s (run digest s os)
  unfolding run
  run-Raises [] s b id = (omega arith, b id)
  run-Raises (o ∷ os) s b id =
      let first = step-Raises s o b in
      let rest = run-Raises os (step digest s o) (λ i. (first i).1) id in
      (omega (arith, (first id).0, rest), rest.1)

  -- A `commit` that reports success names the last fencing number of its identity, and leaves the
  -- record of the identity consumed under it. If the record was not consumed before, the lease was
  -- that of the same owner and had not run out, and the retention is that of the reservation.
  pub commit_applied :
      (s t : Store) (v : AdmissionReservation) (now : ℕ) (identity : Text)
      → stable_digest digest v.identity_jti ≡ ok identity
      → commit digest s v now ≡ ok (t, applied)
      → (r q : StoredRecord) × (s.records identity ≡ some r)
        × (t.records identity ≡ some q)
        × (q.state ≡ consumed_state)
        × (q.fencing ≡ v.fencing)
        × (r.fencing ≡ v.fencing)
        × (((r.state ≡ consumed_state) × (q.consume_until ≡ r.consume_until))
            ⊎ ((r.owner ≡ v.owner)
                × (normalized now < r.lease_expires_at)
                × (q.consume_until ≡ normalized v.consume_until)))
  commit_applied s t v now identity d e =
      elim (commit_cases digest s identity v now t applied d e) [
        | inl (_, _, bad) ↦ cc
        | inr (inl (_, _, bad)) ↦ cc
        | inr (inr (grant, r, _, found, p, was)) ↦
            let (q, q0, q1, q2, q3, q4, q5) =
              commit_known_applied s v now identity grant r found (sym was) in
            (r, q, found, rw p q0, q1, q2, q4, q5)
      ]

  -- A reservation whose fencing number a later lease has overtaken is never committed, whatever
  -- happens in between.
  pub stale_commit :
      (s : Store) (os : List Operation) (v : AdmissionReservation) (now : ℕ) (identity : Text)
      (t : Store) (status : AdmissionMutationStatus)
      → IsBounded s
      → stable_digest digest v.identity_jti ≡ ok identity
      → v.fencing < fence (s.records identity)
      → commit digest (run digest s os) v now ≡ ok (t, status)
      → status ≢ applied
  stale_commit s os v now identity t status b d h e bad =
      let (r, q, found, _, _, _, f, _) =
        commit_applied (run digest s os) t v now identity d (rw bad at e) in
      absurd (omega (arith, run-Raises os s b identity, ap fence found, f, h))

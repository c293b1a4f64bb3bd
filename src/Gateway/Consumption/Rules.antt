-- ===== src/Gateway/Consumption/Rules.antt =====
-- Each call of the store validates, asks for availability and derives the digests of the two
-- identifiers, and then acts on the record of the identity: one rule for a property of the result.
use realm_mesh.Prelude.{
  ℕ, ◌≡◌, inl, inr, List, true, false, Option, none, some, Result, ok, err, Text, Bool-cases,
  Option-cases, Result-cases, ◌⊎◌, arith,
}
use realm_mesh.Gateway.Consumption.{
  Store, StoredRecord, AdmissionReserveRequest, AdmissionReservation, AdmissionReserveResult,
  AdmissionMutationStatus, reserve, commit, release, stable_digest, validate_request,
  validate_reservation, reserve_at, commit_known, release_known, refuse, unavailable,
  mutation_unavailable, lost,
}

-- The store after a call: one that throws leaves it as it was.
abbrev pub after {ℓ} : {A : Type ℓ} → Store → Result (Store × A) → Store
after s (ok r) = r.0
after s (err e) = s

module _ {ℓ} (digest : Text → Option (List ℕ)) (P : Store → Type ℓ) (s : Store) (same : P s) where
  pub reserve_rule :
      (r : AdmissionReserveRequest)
      → ((identity grant : Text) → P (reserve_at s r identity grant).0)
      → P (after s (reserve digest s r))
  unfolding reserve
  reserve_rule r acts = elim (Result-cases (validate_request r)) [
    | inr (e, f) ↦ rw f same
    | inl (_, f) ↦ rw f (elim (Bool-cases s.available) [
      | inr down ↦ simp down same
      | inl up ↦ simp up (elim (Result-cases (stable_digest digest r.identity_jti)) [
        | inr (e, g) ↦ rw g same
        | inl (identity, g) ↦ rw g (elim (Result-cases (stable_digest digest r.grant_jti)) [
          | inr (e, h) ↦ rw h same
          | inl (grant, h) ↦ rw h (acts identity grant)
        ])
      ])
    ])
  ]

  pub commit_rule :
      (v : AdmissionReservation) (now : ℕ)
      → ((identity grant : Text) (r : StoredRecord)
          → s.records identity ≡ some r
          → P (commit_known s v now identity grant r).0)
      → P (after s (commit digest s v now))
  unfolding commit
  commit_rule v now acts = elim (Result-cases (validate_reservation v)) [
    | inr (e, f) ↦ rw f same
    | inl (_, f) ↦ rw f (elim (Bool-cases s.available) [
      | inr down ↦ simp down same
      | inl up ↦ simp up (elim (Result-cases (stable_digest digest v.identity_jti)) [
        | inr (e, g) ↦ rw g same
        | inl (identity, g) ↦ rw g (elim (Result-cases (stable_digest digest v.grant_jti)) [
          | inr (e, h) ↦ rw h same
          | inl (grant, h) ↦ rw h (elim (Option-cases (s.records identity)) [
            | inl missing ↦ rw missing same
            | inr (r, found) ↦ rw found (acts identity grant r found)
          ])
        ])
      ])
    ])
  ]

  pub release_rule :
      (v : AdmissionReservation) (now : ℕ)
      → ((identity grant : Text) (r : StoredRecord)
          → s.records identity ≡ some r
          → P (release_known s v now identity grant r).0)
      → P (after s (release digest s v now))
  unfolding release
  release_rule v now acts = elim (Result-cases (validate_reservation v)) [
    | inr (e, f) ↦ rw f same
    | inl (_, f) ↦ rw f (elim (Bool-cases s.available) [
      | inr down ↦ simp down same
      | inl up ↦ simp up (elim (Result-cases (stable_digest digest v.identity_jti)) [
        | inr (e, g) ↦ rw g same
        | inl (identity, g) ↦ rw g (elim (Result-cases (stable_digest digest v.grant_jti)) [
          | inr (e, h) ↦ rw h same
          | inl (grant, h) ↦ rw h (elim (Option-cases (s.records identity)) [
            | inl missing ↦ rw missing same
            | inr (r, found) ↦ rw found (acts identity grant r found)
          ])
        ])
      ])
    ])
  ]

module _ (digest : Text → Option (List ℕ)) (s : Store) (identity : Text) where
  -- What a call that returns has done, the digest of the identity being known.
  pub reserve_cases :
      (r : AdmissionReserveRequest) (t : Store) (result : AdmissionReserveResult)
      → stable_digest digest r.identity_jti ≡ ok identity
      → reserve digest s r ≡ ok (t, result)
      → ((s.available ≡ false) × (t ≡ s) × (result ≡ refuse unavailable))
        ⊎ ((grant : Text) × (s.available ≡ true)
            × (stable_digest digest r.grant_jti ≡ ok grant)
            × (t ≡ (reserve_at s r identity grant).0)
            × (result ≡ (reserve_at s r identity grant).1))
  unfolding reserve
  reserve_cases r t result d e = ground arith

  pub commit_cases :
      (v : AdmissionReservation) (now : ℕ) (t : Store) (status : AdmissionMutationStatus)
      → stable_digest digest v.identity_jti ≡ ok identity
      → commit digest s v now ≡ ok (t, status)
      → ((s.available ≡ false) × (t ≡ s) × (status ≡ mutation_unavailable))
        ⊎ ((s.records identity ≡ none) × (t ≡ s) × (status ≡ lost))
        ⊎ ((grant : Text) × (r : StoredRecord) × (stable_digest digest v.grant_jti ≡ ok grant)
            × (s.records identity ≡ some r)
            × (t ≡ (commit_known s v now identity grant r).0)
            × (status ≡ (commit_known s v now identity grant r).1))
  unfolding commit
  commit_cases v now t status d e = ground arith

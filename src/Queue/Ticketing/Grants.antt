-- ===== src/Queue/Ticketing/Grants.antt =====
-- The answers of `query` of queue_ticketing.cpp that carry a grant.
use realm_mesh.Prelude.{
  ℕ, ◌+◌, ◌*◌, ◌≤◌, ◌≡◌, subst, refl, sym, ◌∙◌, ap, ◌⊎◌, inl, inr, ltb, if◌then◌else◌, some, Text,
  ok, Result-cases, Option-cases, Bool-cases, arith,
}
use realm_mesh.Queue.Core.{
  QueueCore, QueueReleaseStatus, not_released, eligible, expired, second, release_eligibility,
}
use realm_mesh.Queue.Core.Ledger.{IsConsistent}
use realm_mesh.Queue.Core.Evolution.{Evolves, Evolves-released_at}
use realm_mesh.Queue.Ticketing.{
  QueueNumberClaims, AdmissionGrantIssue, TicketOps, QueueTicketQuery, admitted, release_expired,
  invalid_queue_number, answer, deterministic_grant_jti, grant_request, remaining, admitted_answer,
  admit, answer_queued, answer_of, answer_valid, query,
}

module _ {S : Type 0} (ops : TicketOps S) where
  -- What an answer with a grant rests on.
  abbrev Admits : QueueNumberClaims → ℕ → ℕ → QueueTicketQuery → Type 0
  Admits claims now t q =
      (jti : Text) × (grant : Text) × (deterministic_grant_jti ops claims.identity_jti claims.number
          t
        ≡ ok jti)
      × (ops.issue_grant (grant_request ops claims t jti) ≡ ok grant)
      × (q ≡ admitted_answer ops claims now t grant)

  admit-Admits :
      (claims : QueueNumberClaims) (now t : ℕ) (q : QueueTicketQuery)
      → admit ops claims now t ≡ ok q
      → Admits claims now t q
  unfolding admit
  admit-Admits claims now t q e =
      elim (Result-cases (deterministic_grant_jti ops claims.identity_jti claims.number t)) [
        | inr (x, failed) ↦ absurd (ground (arith, e, failed))
        | inl (jti, named) ↦
            elim (Result-cases (ops.issue_grant (grant_request ops claims t jti))) [
              | inr (x, failed) ↦ absurd (ground (arith, e, named, failed))
              | inl (grant, signed) ↦ (jti, grant, named, signed, ground (arith, e, named, signed))
            ]
      ]

  answer_admitted :
      (c : QueueCore) (claims : QueueNumberClaims) (now t : ℕ) (s : QueueReleaseStatus)
      (q : QueueTicketQuery)
      → answer_of ops c claims now s t ≡ ok q
      → q.status ≡ admitted
      → (s ≡ eligible) × (t ≤ claims.expires_at) × Admits claims now t q
  answer_admitted c claims now t not_released q e a =
      let same : answer_queued ops c claims now ≡ q = cc e in
      let clash = ap (λ x. x.status) same ∙ a in cc clash
  answer_admitted c claims now t expired q e a =
      let same : answer release_expired claims.number ≡ q = cc e in
      let clash = ap (λ x. x.status) same ∙ a in cc clash
  answer_admitted c claims now t eligible q e a = elim (Bool-cases (ltb claims.expires_at t)) [
    | inl late ↦
        let run =
          sym (
            ap
              (λ b. if b then ok (answer release_expired claims.number) else admit ops claims now t)
              late)
          ∙ e in
        let same : answer release_expired claims.number ≡ q = cc run in
        let clash = ap (λ x. x.status) same ∙ a in cc clash
    | inr fine ↦ (
      refl,
      ground (arith, fine),
      admit-Admits claims now t q (
          sym (
            ap
              (λ b. if b then ok (answer release_expired claims.number) else admit ops claims now t)
              fine)
          ∙ e),
    )
  ]

  -- The facts behind an answer with a grant.
  query_cases :
      (c : QueueCore) (token : Text) (now : ℕ) (q : QueueTicketQuery)
      → query ops c token now ≡ ok q
      → q.status ≡ admitted
      → (claims : QueueNumberClaims) × (ops.validate_number token now ≡ some claims)
        × ((release_eligibility c claims.number now).status ≡ eligible)
        × ((release_eligibility c claims.number now).released_at ≤ claims.expires_at)
        × Admits claims now (release_eligibility c claims.number now).released_at q
  unfolding query
  query_cases c token now q e a = elim (Option-cases (ops.validate_number token now)) [
    | inl bad ↦
        let run = sym (ap (answer_valid ops c now) bad) ∙ e in
        let same : answer invalid_queue_number 0 ≡ q = cc run in
        let clash = ap (λ x. x.status) same ∙ a in cc clash
    | inr (claims, valid) ↦
        let (window, early, facts) =
          answer_admitted c claims now (release_eligibility c claims.number now).released_at
            (release_eligibility c claims.number now).status q
            (sym (ap (answer_valid ops c now) valid) ∙ e) a in
        (claims, valid, window, early, facts)
  ]

  -- An answer with a grant is given only for a valid token, while the window of its number is open and if the
  -- credential had not run out by the release. The grant was issued for the identity and the number of the
  -- token and for the time of the release, and the seconds that are reported end neither after the
  -- credential nor after the grant window, unless they are 0.
  pub query_admitted :
      (c : QueueCore) (token : Text) (now : ℕ) (q : QueueTicketQuery)
      → query ops c token now ≡ ok q
      → q.status ≡ admitted
      → (claims : QueueNumberClaims) × (t : ℕ) × (jti : Text) × (grant : Text)
        × (ops.validate_number token now ≡ some claims)
        × (release_eligibility c claims.number now ≡ record { status = eligible; released_at = t })
        × (t ≤ claims.expires_at)
        × (deterministic_grant_jti ops claims.identity_jti claims.number t ≡ ok jti)
        × (request : AdmissionGrantIssue) × (ops.issue_grant request ≡ ok grant)
        × (request.grant_jti ≡ jti)
        × (request.identity_jti ≡ claims.identity_jti)
        × (request.queue_number ≡ claims.number)
        × (request.released_at ≡ t)
        × (request.issued_at ≡ t)
        × (request.identity_expires_at ≡ claims.expires_at)
        × (q.admission_grant ≡ some grant)
        × (q.number ≡ claims.number)
        × ((q.admission_grant_expires_in_seconds ≡ 0)
            ⊎ ((now + q.admission_grant_expires_in_seconds * second ≤ claims.expires_at)
                × (now + q.admission_grant_expires_in_seconds * second
                    ≤ t + ops.grant_window * second)))
  query_admitted c token now q e a =
      let (claims, valid, window, early, (jti, grant, named, signed, same)) =
        query_cases c token now q e a in
      let t = (release_eligibility c claims.number now).released_at in
      let left : q.admission_grant_expires_in_seconds ≡ remaining ops claims now t =
        ap (λ x. x.admission_grant_expires_in_seconds) same in
      (
        claims,
        t,
        jti,
        grant,
        valid,
        cc window,
        early,
        named,
        grant_request ops claims t jti,
        signed,
        refl,
        refl,
        refl,
        refl,
        refl,
        refl,
        ap (λ x. x.admission_grant) same,
        ap (λ x. x.number) same,
        omega (arith, left),
      )

  -- A player who asks again gets the same grant: of two answers with a grant for one token, which the codec
  -- reads in the same way both times, the second from a queue that a consistent one became, up to the second
  -- question, by releases of batches, by the issue of numbers and by restarts from its snapshots, both carry
  -- the same grant and the same number.
  pub query_stable :
      (c d : QueueCore) (token : Text) (now later : ℕ) (q r : QueueTicketQuery)
      → IsConsistent c
      → Evolves later c d
      → ops.validate_number token now ≡ ops.validate_number token later
      → query ops c token now ≡ ok q
      → query ops d token later ≡ ok r
      → q.status ≡ admitted
      → r.status ≡ admitted
      → (q.admission_grant ≡ r.admission_grant) × (q.number ≡ r.number)
  query_stable c d token now later q r v path read e f a b =
      let (claims, valid, window, early, (jti, grant, named, signed, same)) =
        query_cases c token now q e a in
      let (claims', valid', window', early', (jti', grant', named', signed', same')) =
        query_cases d token later r f b in
      let one : some claims ≡ some claims' = sym valid ∙ read ∙ valid' in
      let both : claims ≡ claims' = cc one in
      let when =
        Evolves-released_at c d claims.number now later v path window
          (subst (λ x. (release_eligibility d x.number later).status ≡ eligible) (sym both) window')
        ∙ ap (λ x. (release_eligibility d x.number later).released_at) both in
      let t = (release_eligibility c claims.number now).released_at in
      let t' = (release_eligibility d claims'.number later).released_at in
      let names : ok jti ≡ ok jti' =
        sym named
        ∙ ap (λ x. deterministic_grant_jti ops x.identity_jti x.number t) both
        ∙ ap (deterministic_grant_jti ops claims'.identity_jti claims'.number) when
        ∙ named' in
      let name : jti ≡ jti' = cc names in
      let grants : ok grant ≡ ok grant' =
        sym signed
        ∙ ap (λ x. ops.issue_grant (grant_request ops x t jti)) both
        ∙ ap (λ x. ops.issue_grant (grant_request ops claims' x jti)) when
        ∙ ap (λ x. ops.issue_grant (grant_request ops claims' t' x)) name
        ∙ signed' in
      let sealed : grant ≡ grant' = cc grants in
      (
        ap (λ x. x.admission_grant) same ∙ ap some sealed ∙ sym (ap (λ x. x.admission_grant) same'),
        ap (λ x. x.number) same ∙ ap (λ x. x.number) both ∙ sym (ap (λ x. x.number) same'),
      )

-- ===== src/Gateway/Admission/Handle.antt =====
-- The handle of one login attempt of gateway_admission.cpp, over what the pipeline does with it.
use realm_mesh.Prelude.{
  ℕ, ◌≡◌, refl, sym, subst, ◌⊎◌, inl, inr, List, [], ◌∷◌, true, false, arith, Result, ok, err,
}
use realm_mesh.Gateway.Consumption.{AdmissionReservation, AdmissionMutationStatus}
use realm_mesh.Gateway.Admission.{
  ConsumptionStore, GatewayAdmission, GatewayAdmissionReservation, GatewayAdmissionTransitionStatus,
  PrimaryTransportResult, queued, full, stopped, on_accept_result, abandon, settle,
}

-- What the pipeline may do with a handle.
pub data HandleEvent : Type 0 where
  accept_result : PrimaryTransportResult → ℕ → HandleEvent
  abandons : ℕ → HandleEvent

-- The store after the answer to a change of state; a throw leaves it as it was.
abbrev pub store_after : {S : Type 0} → S → Result (S × AdmissionMutationStatus) → S
store_after s (ok r) = r.0
store_after s (err e) = s

-- The gateway after a call, which a throw leaves as it was.
abbrev gateway_after :
    {S : Type 0}
    → GatewayAdmission S
    → Result (GatewayAdmission S × GatewayAdmissionTransitionStatus)
    → GatewayAdmission S
gateway_after g (ok r) = r.0
gateway_after g (err e) = g

module _ {S : Type 0} (ops : ConsumptionStore S) where
  pub handle_step :
      GatewayAdmission S × GatewayAdmissionReservation
      → HandleEvent
      → GatewayAdmission S × GatewayAdmissionReservation
  handle_step (g, r) (accept_result result t) =
      let out = on_accept_result ops g r result t in (gateway_after g out.1, out.0)
  handle_step (g, r) (abandons t) = let out = abandon ops g r t in (gateway_after g out.1, out.0)

  pub handle_run :
      GatewayAdmission S × GatewayAdmissionReservation
      → List HandleEvent
      → GatewayAdmission S × GatewayAdmissionReservation
  handle_run p [] = p
  handle_run p (e ∷ es) = handle_run (handle_step p e) es

  -- The store is as it was, or has seen the one commit or the one release of the reservation.
  abbrev pub SettledOnce : S → AdmissionReservation → S → Type 0
  SettledOnce s v t =
      (t ≡ s)
      ⊎ ((now : ℕ) × (t ≡ store_after s (ops.commit s v now)))
      ⊎ ((now : ℕ) × (t ≡ store_after s (ops.release s v now)))

  terminal_step :
      (g : GatewayAdmission S) (r : GatewayAdmissionReservation) (e : HandleEvent)
      → r.terminal ≡ true
      → handle_step (g, r) e ≡ (g, r)
  unfolding handle_step on_accept_result abandon
  terminal_step g r (accept_result result t) h = ground arith
  terminal_step g r (abandons t) h = ground arith

  terminal_run :
      (es : List HandleEvent) (g : GatewayAdmission S) (r : GatewayAdmissionReservation)
      → r.terminal ≡ true
      → handle_run (g, r) es ≡ (g, r)
  unfolding handle_run
  terminal_run [] g r h = refl
  terminal_run (e ∷ es) g r h = rw (terminal_step g r e h) (terminal_run es g r h)

  gateway_after-settle :
      (g : GatewayAdmission S) (answer : Result (S × AdmissionMutationStatus))
      → (gateway_after g (settle g answer)).store ≡ store_after g.store answer
  unfolding settle
  gateway_after-settle g (ok r) = refl
  gateway_after-settle g (err e) = refl

  -- The first event that is no `full` settles the handle.
  open_step :
      (g : GatewayAdmission S) (r : GatewayAdmissionReservation) (e : HandleEvent)
      → r.terminal ≡ false
      → (handle_step (g, r) e ≡ (g, r))
        ⊎ (((handle_step (g, r) e).1.terminal ≡ true)
            × SettledOnce g.store r.reservation (handle_step (g, r) e).0.store)
  unfolding handle_step on_accept_result abandon
  open_step g r (accept_result full t) h = inl (ground arith)
  open_step g r (accept_result queued t) h = inr (
    ground arith,
    inr (inl (t, ground (arith, gateway_after-settle g (ops.commit g.store r.reservation t)))),
  )
  open_step g r (accept_result stopped t) h = inr (
    ground arith,
    inr (inr (t, ground (arith, gateway_after-settle g (ops.release g.store r.reservation t)))),
  )
  open_step g r (abandons t) h = inr (
    ground arith,
    inr (inr (t, ground (arith, gateway_after-settle g (ops.release g.store r.reservation t)))),
  )

  -- Whatever the pipeline does with an open handle, and however often, the store sees at most one
  -- change: one commit of the reservation or one release of it, and never one after the other.
  pub handle_run-SettledOnce :
      (es : List HandleEvent) (g : GatewayAdmission S) (r : GatewayAdmissionReservation)
      → r.terminal ≡ false
      → SettledOnce g.store r.reservation (handle_run (g, r) es).0.store
  unfolding handle_run
  handle_run-SettledOnce [] g r h = inl refl
  handle_run-SettledOnce (e ∷ es) g r h = elim (open_step g r e h) [
    | inl same ↦ subst after_run (sym same) (handle_run-SettledOnce es g r h)
    | inr (done, once) ↦
        subst (λ p. SettledOnce g.store r.reservation p.0.store)
          (sym (terminal_run es (handle_step (g, r) e).0 (handle_step (g, r) e).1 done)) once
  ]
    where
      after_run : GatewayAdmission S × GatewayAdmissionReservation → Type 0
      after_run p = SettledOnce g.store r.reservation (handle_run p es).0.store

-- ===== src/Gateway/Pipeline/Rules.antt =====
-- What the operations on one session do to the slots and the reservations that it owns.
use realm_mesh.Prelude.{
  ℕ, ◌+◌, ◌^◌, ◌≤◌, ◌<◌, ◌≡◌, refl, sym, ◌∙◌, ap, false, Option, none, some, Text, sub64, arith,
  Bool-cases, inl, inr, subst,
}
use realm_mesh.Gateway.Admission.{GatewayAdmissionReservation}
use realm_mesh.Gateway.Pipeline.{decline_intent, RuntimeIntent, PipelineSession, Ports, Shared}
use realm_mesh.Gateway.Pipeline.Sessions.{
  close_command, error_payload, cancel_active, release_fetch_reservation, abandon_held,
  release_session, schedule_close, schedule_decline, leave_with,
}
use realm_mesh.Gateway.Pipeline.Attach.{has_value}
use realm_mesh.Gateway.Pipeline.Accounts.{
  none_open, is_open, Laws, flag, slots, reservations, is_handing, Owns,
}

-- The session owns nothing, and the others what they had.
abbrev pub Freed : {W : Type 0} → (W → ℕ) → ℕ → ℕ → Shared W × PipelineSession → Type 0
Freed held n m (d, t) =
    (d.fetch_used ≡ n)
    × (held d.world ≡ m)
    × (t.fetch_reserved ≡ false)
    × (has_value t.active_attempt ≡ false)
    × (has_value t.admission_reservation ≡ false)

pub others_bound :
    {W : Type 0} (held : W → ℕ) (capacity n m : ℕ) (x : Shared W × PipelineSession)
    → Owns held capacity n m x
    → n ≤ capacity
others_bound held capacity n m (c, s) (used, all, bound, fits) = omega arith

module _ {W : Type 0} (ports : Ports W) (held : W → ℕ) (laws : Laws ports held) where
  pub cancel_active_lem :
      (a : Option ℕ) (c : Shared W) (s : PipelineSession)
      → s.active_attempt ≡ a
      → let r = cancel_active ports a c s in
        (r.0.fetch_used ≡ c.fetch_used)
        × (held r.0.world ≡ held c.world)
        × (r.1.fetch_reserved ≡ s.fetch_reserved)
        × (r.1.admission_reservation ≡ s.admission_reservation)
        × (has_value r.1.active_attempt ≡ false)
  cancel_active_lem none c s e = (refl, refl, refl, refl, ap has_value e)
  cancel_active_lem (some a) c s e = (refl, laws.cancel_law c.world a, refl, refl, refl)

  pub release_fetch_reservation_lem :
      (capacity n : ℕ) (c : Shared W) (s : PipelineSession)
      → c.fetch_used ≡ n + slots s
      → c.fetch_used ≤ capacity
      → capacity < 2 ^ 64
      → let r = release_fetch_reservation c s in
        (r.0.fetch_used ≡ n)
        × (held r.0.world ≡ held c.world)
        × (r.1.fetch_reserved ≡ false)
        × (r.1.admission_reservation ≡ s.admission_reservation)
        × (r.1.active_attempt ≡ s.active_attempt)
  unfolding release_fetch_reservation
  release_fetch_reservation_lem capacity n c s used bound small =
      elim (Bool-cases s.fetch_reserved) [
        | inl e ↦
            let all : c.fetch_used ≡ n + 1 = used ∙ ap (λ b. n + flag b) e in
            let one : sub64 c.fetch_used 1 ≡ n = omega arith in rw e (one, refl, refl, refl, refl)
        | inr e ↦
            let none_left : c.fetch_used ≡ n = used ∙ ap (λ b. n + flag b) e ∙ omega arith in
            rw e (none_left, refl, refl, refl, refl)
      ]

  pub abandon_held_lem :
      (a : Option GatewayAdmissionReservation) (n : ℕ) (c : Shared W) (s : PipelineSession)
      → s.admission_reservation ≡ a
      → held c.world ≡ n + reservations s
      → let r = abandon_held ports a c s in
        (r.0.fetch_used ≡ c.fetch_used)
        × (held r.0.world ≡ n)
        × (r.1.fetch_reserved ≡ s.fetch_reserved)
        × (r.1.active_attempt ≡ s.active_attempt)
        × (has_value r.1.admission_reservation ≡ false)
  abandon_held_lem none n c s e all =
      (refl, all ∙ ap (λ a. n + flag (is_open a)) e ∙ omega arith, refl, refl, ap has_value e)
  abandon_held_lem (some a) n c s e all = (
    refl,
    laws.abandon_law c.world a c.verification_now n (all ∙ ap (λ a. n + flag (is_open a)) e),
    refl,
    refl,
    refl,
  )

  pub release_session-Freed :
      (capacity n m : ℕ) (x : Shared W × PipelineSession)
      → Owns held capacity n m x
      → capacity < 2 ^ 64
      → Freed held n m (release_session ports x.0 x.1)
  unfolding release_session
  release_session-Freed capacity n m (c, s) (used, all, bound, fits) small =
      let cancelled = cancel_active_lem s.active_attempt c s refl in
      let x = cancel_active ports s.active_attempt c s in
      let released =
        release_fetch_reservation_lem capacity n x.0 x.1
          (cancelled.0 ∙ used ∙ ap (λ b. n + flag b) (sym cancelled.2))
          (subst (λ u. u ≤ capacity) (sym cancelled.0) bound) small in
      let y = release_fetch_reservation x.0 x.1 in
      let kept = released.3 ∙ cancelled.3 in
      let abandoned =
        abandon_held_lem y.1.admission_reservation m y.0 y.1 refl
          (released.1 ∙ cancelled.1 ∙ all ∙ ap (λ a. m + flag (is_open a)) (sym kept)) in
      (
        abandoned.0 ∙ released.0,
        abandoned.1,
        abandoned.2 ∙ released.2,
        ap has_value (abandoned.3 ∙ released.4) ∙ cancelled.4,
        abandoned.4,
      )

  -- A command that leaves, of a session that owns nothing.
  pub leave_with-Owns :
      (capacity n m : ℕ) (intent : RuntimeIntent) (x : Shared W × PipelineSession)
      → Freed held n m x
      → n ≤ capacity
      → is_handing (some intent) ≡ false
      → Owns held capacity n m (x.0, leave_with intent x.1)
  leave_with-Owns capacity n m intent (d, t) (used, all, free, idle, none_held) bound leaves = (
    ground arith,
    omega (arith, all, ap flag (none_open t.admission_reservation none_held)),
    ground arith,
    (ground arith, ground arith, ground arith, ground arith, ground arith, ground arith),
  )

  pub schedule_close-Owns :
      (capacity n m : ℕ) (x : Shared W × PipelineSession)
      → Owns held capacity n m x
      → capacity < 2 ^ 64
      → Owns held capacity n m (schedule_close ports x.0 x.1)
  unfolding schedule_close
  schedule_close-Owns capacity n m x owns small =
      leave_with-Owns capacity n m close_command (release_session ports x.0 x.1)
        (release_session-Freed capacity n m x owns small) (others_bound held capacity n m x owns)
        refl

  pub schedule_decline-Owns :
      (code : ℕ) (text : Text) (request_id retry_after capacity n m : ℕ)
      (x : Shared W × PipelineSession)
      → Owns held capacity n m x
      → capacity < 2 ^ 64
      → Owns held capacity n m (schedule_decline ports code text request_id retry_after x.0 x.1)
  unfolding schedule_decline
  schedule_decline-Owns code text request_id retry_after capacity n m x owns small =
      leave_with-Owns capacity n m
        (record {
          kind = decline_intent;
          payload = error_payload ports code text request_id retry_after;
        })
        (release_session ports x.0 x.1) (release_session-Freed capacity n m x owns small)
        (others_bound held capacity n m x owns) refl

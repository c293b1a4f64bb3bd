-- ===== src/Gateway/Pipeline/FetchRules.antt =====
-- What the phases around the fetches do to the slots and the reservations of a session.
use realm_mesh.Prelude.{
  ℕ, ◌+◌, ◌/◌, ◌^◌, ◌%◌, ◌≤◌, ◌<◌, ◌≡◌, refl, sym, ◌∙◌, true, false, not, max, Option, none, some,
  codes, sub64, arith, Bool-cases, either, inl, inr, subst, leb,
}
use realm_mesh.Gateway.Pipeline.{
  PipelineSession, GatewayLoginConfig, GatewayLoginPipeline, Ports, Shared, AccountFetchStatus,
  fetch_succeeded, not_eligible, fetch_unavailable, AccountFetchCompletion,
}
use realm_mesh.Gateway.Pipeline.Sessions.{
  record_fetch_failure, cancel_active, release_fetch_reservation,
}
use realm_mesh.Gateway.Pipeline.Attach.{has_value}
use realm_mesh.Gateway.Pipeline.Fetching.{complete, failed, fetched, is_fetching}
use realm_mesh.Gateway.Pipeline.Accounts.{Laws, Owns}
use realm_mesh.Gateway.Pipeline.Rules.{schedule_decline-Owns}

module _ {W : Type 0} (ports : Ports W) (held : W → ℕ) (laws : Laws ports held) where
  pub record_fetch_failure-Owns :
      (config : GatewayLoginConfig) (now n m : ℕ) (c : Shared W) (s : PipelineSession)
      → Owns held config.fetch_capacity n m (c, s)
      → config.fetch_capacity < 2 ^ 64
      → Owns held config.fetch_capacity n m (record_fetch_failure ports config now c s)
  unfolding record_fetch_failure
  record_fetch_failure-Owns config now n m c s owns small =
      let count = (s.fetch_failures + 1) % 2 ^ 32 in
      elim (Bool-cases (leb count config.fetch_retry_max)) [
        | inl e ↦ rw e owns
        | inr e ↦ rw e (
            schedule_decline-Owns ports held laws 1008 (codes "player data unavailable") 0
              (max 1 ((config.fetch_retry_base + 999) / 1000)) config.fetch_capacity n m
              (c, record s { fetch_failures = count }) owns small)
      ]

  failed-Owns :
      (now : ℕ) (p : GatewayLoginPipeline W) (status : AccountFetchStatus) (n m : ℕ) (c : Shared W)
      (s : PipelineSession)
      → Owns held p.config.fetch_capacity n m (c, s)
      → p.config.fetch_capacity < 2 ^ 64
      → Owns held p.config.fetch_capacity n m (failed ports now p status c s)
  failed-Owns now p not_eligible n m c s owns small =
      schedule_decline-Owns ports held laws 1007 (codes "account not eligible") 0 0
        p.config.fetch_capacity n m (c, s) owns small
  failed-Owns now p fetch_succeeded n m c s owns small =
      record_fetch_failure-Owns p.config now n m c s owns small
  failed-Owns now p fetch_unavailable n m c s owns small =
      record_fetch_failure-Owns p.config now n m c s owns small

  fetched-Owns :
      (capacity n m : ℕ) (c : Shared W) (s : PipelineSession)
      → Owns held capacity n m (c, s)
      → has_value s.active_attempt ≡ false
      → is_fetching s.stage ≡ true
      → s.closing ≡ false
      → capacity < 2 ^ 64
      → Owns held capacity n m (fetched ports (release_fetch_reservation c s))
  unfolding release_fetch_reservation
  fetched-Owns capacity n m c s (used, all, bound, fits) idle fetches stays small =
      either (λ x. Owns held capacity n m (fetched ports x)) (not s.fetch_reserved) (c, s)
        (record c { fetch_used = sub64 c.fetch_used 1 }, record s { fetch_reserved = false })
        (λ e. (
          used,
          all,
          bound,
          (ground arith, ground arith, ground arith, ground arith, ground arith, ground arith),
        ))
        (λ e.
          let one : sub64 c.fetch_used 1 ≡ n = ground arith in
          (
            one ∙ omega arith,
            all,
            subst (λ u. u ≤ capacity) (sym one) (omega arith),
            (ground arith, ground arith, ground arith, ground arith, ground arith, ground arith),
          ))

  -- A completion for a session whose attempt was running.
  pub complete-Owns :
      (now : ℕ) (p : GatewayLoginPipeline W) (reply : AccountFetchCompletion) (n m : ℕ)
      (c : Shared W) (s : PipelineSession)
      → Owns held p.config.fetch_capacity n m (c, s)
      → has_value s.active_attempt ≡ false
      → is_fetching s.stage ≡ true
      → p.config.fetch_capacity < 2 ^ 64
      → Owns held p.config.fetch_capacity n m (complete ports now p reply c s)
  unfolding complete
  complete-Owns now p reply n m c s owns idle fetches small =
      let P : Shared W × PipelineSession → Type 0 = λ x. Owns held p.config.fetch_capacity n m x in
      either P s.closing (c, s) _ (λ leaves. owns)
        (λ stays.
          either P reply.ok_flag (fetched ports (release_fetch_reservation c s))
            (failed ports now p reply.status c s)
            (λ e. fetched-Owns p.config.fetch_capacity n m c s owns idle fetches stays small)
            (λ e. failed-Owns now p reply.status n m c s owns small))

  pub cancel_active-Owns :
      (a : Option ℕ) (capacity n m : ℕ) (c : Shared W) (s : PipelineSession)
      → Owns held capacity n m (c, s)
      → Owns held capacity n m (cancel_active ports a c s)
  cancel_active-Owns none capacity n m c s owns = owns
  cancel_active-Owns (some a) capacity n m c s (used, all, bound, fits) =
      (used, laws.cancel_law c.world a ∙ all, bound, (fits.0, refl, fits.2, fits.3, fits.4, fits.5))

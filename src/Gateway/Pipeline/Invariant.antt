-- ===== src/Gateway/Pipeline/Invariant.antt =====
-- The account of the sessions of a pipeline, and the rules that keep it.
use realm_mesh.Prelude.{
  if◌then◌else◌, ℕ, suc, ◌+◌, ◌-◌, ◌^◌, ◌≤◌, ◌<◌, ◌≡◌, refl, sym, ◌∙◌, ap, [], ◌∷◌, false, Option,
  none, some, Text, length, Map, find, contains, put, erase, Ordered, arith, subst, Ordered-put,
  Ordered-erase, length-put, length-erase, contains-find,
}
use realm_mesh.Gateway.Admission.{GatewayAdmissionReservation}
use realm_mesh.Gateway.Pipeline.{PipelineSession, Ports, Shared, GatewayLoginPipeline}
use realm_mesh.Gateway.Pipeline.Sessions.{
  new_session, cancel_attempt, cancel_active, release_admission_reservation, abandon_held,
  halt_sessions, mark_unhealthy,
}
use realm_mesh.Gateway.Pipeline.Attach.{store}
use realm_mesh.Gateway.Pipeline.Accounts.{
  is_open, none_open, flag, Laws, slots, reservations, Fits, Owns, total, AllFit, total-put,
  total-erase, total-new, AllFit-find, AllFit-put, AllFit-erase,
}
use realm_mesh.Gateway.Pipeline.Rules.{Freed, cancel_active_lem, abandon_held_lem}

-- The slots in use are those of the sessions, within the capacity; the reservations that the world
-- counts beyond `base` are those of the sessions; and there is room for the sessions.
pub record IsAccounted {W : Type 0} (held : W → ℕ) (base : ℕ) (p : GatewayLoginPipeline W)
    : Type 0 where
  pub ordered : Ordered 0 p.sessions
  pub room : length p.sessions ≤ p.config.conn_capacity
  pub small : p.config.fetch_capacity < 2 ^ 64
  pub narrow : p.config.conn_capacity < 2 ^ 64
  pub used : p.shared.fetch_used ≡ total slots p.sessions
  pub bound : p.shared.fetch_used ≤ p.config.fetch_capacity
  pub reserved : held p.shared.world ≡ base + total reservations p.sessions
  pub fit : AllFit p.sessions

total_le :
    (weight : PipelineSession → ℕ) (id : ℕ) (s : PipelineSession) (m : Map PipelineSession)
    → find id m ≡ some s
    → weight s ≤ total weight m
total_le weight id s m e = omega (arith, total-erase weight id s m e)

module _ {W : Type 0} (held : W → ℕ) (base : ℕ) (p : GatewayLoginPipeline W) where
  pub shared-IsAccounted :
      (c : Shared W)
      → IsAccounted held base p
      → c.fetch_used ≡ p.shared.fetch_used
      → held c.world ≡ held p.shared.world
      → IsAccounted held base (record p { shared = c })
  shared-IsAccounted c h same unmoved = record {
    ordered = h.ordered;
    room = h.room;
    small = h.small;
    narrow = h.narrow;
    used = same ∙ h.used;
    bound = subst (λ u. u ≤ p.config.fetch_capacity) (sym same) h.bound;
    reserved = unmoved ∙ h.reserved;
    fit = h.fit;
  }

  -- What the other sessions own is kept by what is done to one of them.
  pub store-IsAccounted :
      (id : ℕ) (s : PipelineSession) (x : Shared W × PipelineSession)
      → IsAccounted held base p
      → find id p.sessions ≡ some s
      → ((n m : ℕ)
          → Owns held p.config.fetch_capacity n m (p.shared, s)
          → Owns held p.config.fetch_capacity n m x)
      → IsAccounted held base (store p id x)
  store-IsAccounted id s (d, t) h e keeps =
      let n = total slots p.sessions - slots s in
      let m = base + total reservations p.sessions - reservations s in
      let some_slots = total_le slots id s p.sessions e in
      let some_reserved = total_le reservations id s p.sessions e in
      let own = keeps n m (
        h.used ∙ omega arith,
        h.reserved ∙ omega arith,
        h.bound,
        AllFit-find id s p.sessions h.fit e,
      ) in
      let moved = total-put slots id 0 s t p.sessions h.ordered e in
      let moved_too = total-put reservations id 0 s t p.sessions h.ordered e in
      record {
        ordered = Ordered-put id 0 t p.sessions (omega arith) h.ordered;
        room =
            subst (λ l. l ≤ p.config.conn_capacity)
              (sym (
                length-put id 0 t p.sessions h.ordered
                ∙ ap (λ b. (if b then 0 else 1) + length p.sessions)
                    (contains-find id p.sessions s e)
                ∙ omega arith))
              h.room;
        small = h.small;
        narrow = h.narrow;
        used = own.0 ∙ omega arith;
        bound = own.2;
        reserved = own.1 ∙ omega arith;
        fit = AllFit-put id t p.sessions own.3 h.fit;
      }

  pub erase-IsAccounted :
      (id : ℕ) (s : PipelineSession) (x : Shared W × PipelineSession)
      → IsAccounted held base p
      → find id p.sessions ≡ some s
      → ((n m : ℕ) → Owns held p.config.fetch_capacity n m (p.shared, s) → Freed held n m x)
      → IsAccounted held base (record p { shared = x.0; sessions = erase id p.sessions })
  erase-IsAccounted id s (d, t) h e frees =
      let n = total slots p.sessions - slots s in
      let m = base + total reservations p.sessions - reservations s in
      let some_slots = total_le slots id s p.sessions e in
      let some_reserved = total_le reservations id s p.sessions e in
      let own = frees n m (
        h.used ∙ omega arith,
        h.reserved ∙ omega arith,
        h.bound,
        AllFit-find id s p.sessions h.fit e,
      ) in
      let moved = total-erase slots id s p.sessions e in
      let moved_too = total-erase reservations id s p.sessions e in
      let used = h.used in
      let bound = h.bound in
      let shorter = length-erase id p.sessions in
      let room = h.room in
      record {
        ordered = Ordered-erase id 0 p.sessions h.ordered;
        room = omega arith;
        small = h.small;
        narrow = h.narrow;
        used = own.0 ∙ omega arith;
        bound = subst (λ u. u ≤ p.config.fetch_capacity) (sym own.0) (omega arith);
        reserved = own.1 ∙ omega arith;
        fit = AllFit-erase id p.sessions h.fit;
      }

  pub new-IsAccounted :
      (id : ℕ) (source : Text)
      → IsAccounted held base p
      → contains id p.sessions ≡ false
      → length p.sessions < p.config.conn_capacity
      → IsAccounted held base (record p { sessions = put id (new_session source) p.sessions })
  new-IsAccounted id source h fresh free =
      let s = new_session source in
      let moved = total-new slots id s p.sessions fresh in
      let moved_too = total-new reservations id s p.sessions fresh in
      let longer =
        length-put id 0 s p.sessions h.ordered
        ∙ ap (λ b. (if b then 0 else 1) + length p.sessions) fresh in
      record {
        ordered = Ordered-put id 0 s p.sessions (omega arith) h.ordered;
        room = omega arith;
        small = h.small;
        narrow = h.narrow;
        used = h.used ∙ omega arith;
        bound = h.bound;
        reserved = h.reserved ∙ omega arith;
        fit = AllFit-put id s p.sessions (refl, refl, refl, refl, refl, refl) h.fit;
      }

cancel_active-Fits :
    {W : Type 0} (ports : Ports W) (a : Option ℕ) (c : Shared W) (s : PipelineSession)
    → Fits s
    → Fits (cancel_active ports a c s).1
cancel_active-Fits ports none c s fits = fits
cancel_active-Fits ports (some a) c s fits = (fits.0, refl, fits.2, fits.3, fits.4, fits.5)

abandon_held-Fits :
    {W : Type 0} (ports : Ports W) (a : Option GatewayAdmissionReservation) (c : Shared W)
    (s : PipelineSession)
    → Fits s
    → Fits (abandon_held ports a c s).1
abandon_held-Fits ports none c s fits = fits
abandon_held-Fits ports (some a) c s fits = (refl, fits.1, fits.2, fits.3, fits.4, fits.5)

module _ {W : Type 0} (ports : Ports W) (held : W → ℕ) (laws : Laws ports held) where
  -- One session of `mark_unhealthy`.
  halt_one :
      (n : ℕ) (c : Shared W) (s : PipelineSession)
      → held c.world ≡ n + reservations s
      → Fits s
      → let x = cancel_attempt ports c s in
        let y = release_admission_reservation ports x.0 x.1 in
        (y.0.fetch_used ≡ c.fetch_used)
        × (held y.0.world ≡ n)
        × (slots y.1 ≡ slots s)
        × (reservations y.1 ≡ 0)
        × Fits y.1
  halt_one n c s all fits =
      let cancelled = cancel_active_lem ports held laws s.active_attempt c s refl in
      let x = cancel_attempt ports c s in
      let abandoned =
        abandon_held_lem ports held laws x.1.admission_reservation n x.0 x.1 refl
          (cancelled.1 ∙ all ∙ ap (λ a. n + flag (is_open a)) (sym cancelled.3)) in
      let y = release_admission_reservation ports x.0 x.1 in
      (
        abandoned.0 ∙ cancelled.0,
        abandoned.1,
        ap flag (abandoned.2 ∙ cancelled.2),
        ap flag (none_open y.1.admission_reservation abandoned.4),
        abandon_held-Fits ports x.1.admission_reservation x.0 x.1
            (cancel_active-Fits ports s.active_attempt c s fits),
      )

  pub halt_sessions_lem :
      (base low : ℕ) (c : Shared W) (m : Map PipelineSession)
      → held c.world ≡ base + total reservations m
      → AllFit m
      → Ordered low m
      → let x = halt_sessions ports c m in
        (x.0.fetch_used ≡ c.fetch_used)
        × (held x.0.world ≡ base)
        × (total slots x.1 ≡ total slots m)
        × (total reservations x.1 ≡ 0)
        × AllFit x.1
        × Ordered low x.1
        × (length x.1 ≡ length m)
  unfolding halt_sessions total
  halt_sessions_lem base low c [] all fit o = (refl, all ∙ omega arith, refl, refl, tt, tt, refl)
  halt_sessions_lem base low c ((id, s) ∷ m) all (fits, fit) (l, o) =
      let one = halt_one (base + total reservations m) c s (all ∙ omega arith) fits in
      let x = cancel_attempt ports c s in
      let y = release_admission_reservation ports x.0 x.1 in
      let others = halt_sessions_lem base (suc id) y.0 m one.1 fit o in
      (
        others.0 ∙ one.0,
        others.1,
        omega (arith, one.2, others.2),
        omega (arith, one.3, others.3),
        (one.4, others.4),
        (l, others.5),
        ap suc others.6,
      )

  pub mark_unhealthy-IsAccounted :
      (base : ℕ) (p : GatewayLoginPipeline W)
      → IsAccounted held base p
      → IsAccounted held base (mark_unhealthy ports p)
  unfolding mark_unhealthy
  mark_unhealthy-IsAccounted base p h =
      let x = halt_sessions ports p.shared p.sessions in
      let y = halt_sessions_lem base 0 p.shared p.sessions h.reserved h.fit h.ordered in
      record {
        ordered = y.5;
        room = subst (λ l. l ≤ p.config.conn_capacity) (sym y.6) h.room;
        small = h.small;
        narrow = h.narrow;
        used = y.0 ∙ h.used ∙ sym y.2;
        bound = subst (λ u. u ≤ p.config.fetch_capacity) (sym y.0) h.bound;
        reserved = y.1 ∙ omega (arith, y.3);
        fit = y.4;
      }

-- ===== src/Gateway/Pipeline/Accounts.antt =====
-- What the sessions of a pipeline own: slots of the fetch budget and reservations of the admission.
use realm_mesh.Prelude.{
  ℕ, suc, ◌+◌, ◌≤◌, ◌≡◌, refl, sym, ◌∙◌, ap, List, [], ◌∷◌, Bool, true, false, not, ◌&&◌, ◌||◌,
  if◌then◌else◌, ◌==◌, ltb, Option, none, some, Text, Map, find, contains, put, erase, Ordered,
  find_below, arith, Bool-cases, inl, inr, subst,
}
use realm_mesh.Gateway.Admission.{
  GatewayAdmissionReservation, GatewayAdmissionStartStatus, start_reserved, invalid_credentials,
  start_in_progress, start_consumed, start_unavailable, PrimaryTransportResult, queued, full,
  stopped,
}
use realm_mesh.Gateway.Pipeline.{
  decline_intent, close_intent, accept_intent, handoff_intent, RuntimeIntent, PipelineSession,
  AccountFetchRequest, Ports, Shared,
}
use realm_mesh.Gateway.Pipeline.Attach.{has_value, is_pending}
use realm_mesh.Gateway.Pipeline.Fetching.{is_fetching}

abbrev pub flag : Bool → ℕ
flag false = 0
flag true = 1

-- A handle that is not settled.
abbrev pub is_open : Option GatewayAdmissionReservation → Bool
is_open none = false
is_open (some r) = not r.terminal

pub none_open : (a : Option GatewayAdmissionReservation) → has_value a ≡ false → is_open a ≡ false
none_open none e = refl
none_open (some r) e = cc

-- The open handles that an answer of the admission hands out.
abbrev pub handed : GatewayAdmissionStartStatus → Option GatewayAdmissionReservation → ℕ
handed start_reserved (some r) = flag (not r.terminal)
handed start_reserved none = 0
handed invalid_credentials r = 0
handed start_in_progress r = 0
handed start_consumed r = 0
handed start_unavailable r = 0

abbrev pub settles : PrimaryTransportResult → Bool
settles full = false
settles queued = true
settles stopped = true

-- What keeps the account: the world counts the handles that were handed out and are not terminal.
-- `abandon` settles an open handle, and so does `on_accept_result` unless the transport was full; a
-- terminal handle is not counted, so that settling it again changes nothing; and no other call touches
-- the handles.
pub record Laws {W : Type 0} (ports : Ports W) (held : W → ℕ) : Type 0 where
  pub refresh_law : (w : W) (t : ℕ) → held (ports.refresh_availability w t) ≡ held w
  pub reserve_law :
      (w : W) (identity : Text) (grant : Text) (owner : Text) (t : ℕ)
      → held (ports.reserve w identity grant owner t).0
        ≡ held w
          + handed
              (ports.reserve w identity grant owner t).1.status
              (ports.reserve w identity grant owner t).1.reservation
  pub accept_result_law :
      (w : W) (r : GatewayAdmissionReservation) (result : PrimaryTransportResult) (t n : ℕ)
      → held w ≡ n + flag (not r.terminal)
      → held (ports.on_accept_result w r result t).0
        ≡ n
          + (if settles result
              then 0
              else flag (not (ports.on_accept_result w r result t).1.terminal))
  pub abandon_law :
      (w : W) (r : GatewayAdmissionReservation) (t n : ℕ)
      → held w ≡ n + flag (not r.terminal)
      → held (ports.abandon w r t) ≡ n
  pub events_law : (w : W) (n : ℕ) → held (ports.drain_events w n).0 ≡ held w
  pub accept_law : (w : W) (id : ℕ) (m : List ℕ) → held (ports.accept w id m).0 ≡ held w
  pub decline_law : (w : W) (id : ℕ) (m : List ℕ) → held (ports.decline w id m).0 ≡ held w
  pub handoff_law : (w : W) (id : ℕ) (m : List ℕ) → held (ports.send_handoff w id m).0 ≡ held w
  pub close_law : (w : W) (id : ℕ) → held (ports.close w id).0 ≡ held w
  pub submit_law : (w : W) (r : AccountFetchRequest) (t : ℕ) → held (ports.submit w r t).0 ≡ held w
  pub completions_law : (w : W) (t n : ℕ) → held (ports.drain_completions w t n).0 ≡ held w
  pub cancel_law : (w : W) (a : ℕ) → held (ports.cancel w a) ≡ held w
  pub inspect_law :
      (w : W) (source : Text) (n : ℕ) (m : List ℕ) (t : ℕ)
      → held (ports.inspect_attach w source n m t).0 ≡ held w
  pub verification_law : (w : W) → held (ports.end_verification w) ≡ held w
  pub ticket_law : (w : W) (a b c t : ℕ) → held (ports.issue_ticket w a b c t).0 ≡ held w

abbrev pub slots : PipelineSession → ℕ
slots s = flag s.fetch_reserved

abbrev pub reservations : PipelineSession → ℕ
reservations s = flag (is_open s.admission_reservation)

abbrev pub is_accepting : Option RuntimeIntent → Bool
is_accepting none = false
is_accepting (some intent) = elim intent.kind [ accept_intent ↦ true | _ ↦ false ]

abbrev pub is_leaving : Option RuntimeIntent → Bool
is_leaving none = false
is_leaving (some intent) = elim intent.kind [
  | close_intent ↦ true
  | decline_intent ↦ true
  | _ ↦ false
]

abbrev pub is_handing : Option RuntimeIntent → Bool
is_handing none = false
is_handing (some intent) = elim intent.kind [ handoff_intent ↦ true | _ ↦ false ]

abbrev pub implies : Bool → Bool → Bool
implies a b = not a || b

-- A reservation is held only while the acceptance is to be sent; an attempt runs only while the
-- session fetches and has a slot; a session that leaves, or that is to be handed off, has none; a
-- session with a slot fetches or is to be accepted.
abbrev pub Fits : PipelineSession → Type 0
Fits s =
    (implies (has_value s.admission_reservation)
        (is_accepting s.intent && s.fetch_reserved && not s.closing && is_pending s.stage)
      ≡ true)
    × (implies (has_value s.active_attempt) (s.fetch_reserved && is_fetching s.stage) ≡ true)
    × (implies s.closing (not s.fetch_reserved) ≡ true)
    × (implies (is_leaving s.intent) s.closing ≡ true)
    × (implies (is_handing s.intent) (not s.fetch_reserved && not s.closing) ≡ true)
    × (implies s.fetch_reserved (is_accepting s.intent || is_fetching s.stage) ≡ true)

-- The others own `n` slots and `m` reservations; `capacity` bounds the slots.
abbrev pub Owns : {W : Type 0} → (W → ℕ) → ℕ → ℕ → ℕ → Shared W × PipelineSession → Type 0
Owns held capacity n m (c, s) =
    (c.fetch_used ≡ n + slots s)
    × (held c.world ≡ m + reservations s)
    × (c.fetch_used ≤ capacity)
    × Fits s

-- The sum of a weight over the sessions.
unfoldable pub total : (PipelineSession → ℕ) → Map PipelineSession → ℕ
total weight [] = 0
total weight ((id, s) ∷ sessions) = weight s + total weight sessions

abbrev pub AllFit : Map PipelineSession → Type 0
AllFit [] = Unit {0}
AllFit ((id, s) ∷ sessions) = Fits s × AllFit sessions

pub total-put :
    (weight : PipelineSession → ℕ) (id low : ℕ) (s t : PipelineSession) (m : Map PipelineSession)
    → Ordered low m
    → find id m ≡ some s
    → total weight (put id t m) + weight s ≡ total weight m + weight t
unfolding total find put
total-put weight id low s t [] o e = cc
total-put weight id low s t ((k, u) ∷ m) (l, o) e =
    ground (arith, total-put weight id (suc k) s t m o, find_below id (suc k) m o)

pub total-erase :
    (weight : PipelineSession → ℕ) (id : ℕ) (s : PipelineSession) (m : Map PipelineSession)
    → find id m ≡ some s
    → total weight (erase id m) + weight s ≡ total weight m
unfolding total find erase
total-erase weight id s [] e = cc
total-erase weight id s ((k, u) ∷ m) e = ground (arith, total-erase weight id s m)

pub total-new :
    (weight : PipelineSession → ℕ) (id : ℕ) (t : PipelineSession) (m : Map PipelineSession)
    → contains id m ≡ false
    → total weight (put id t m) ≡ total weight m + weight t
unfolding total contains put
total-new weight id t [] e = omega arith
total-new weight id t ((k, u) ∷ m) e = ground (arith, total-new weight id t m)

pub AllFit-find :
    (id : ℕ) (s : PipelineSession) (m : Map PipelineSession)
    → AllFit m
    → find id m ≡ some s
    → Fits s
unfolding find
AllFit-find id s [] h e = cc
AllFit-find id s ((k, u) ∷ m) (f, h) e = elim (Bool-cases (id == k)) [
  | inl here ↦
      let same = sym (ap (λ t. if t then some u else find id m) here) ∙ e in
      let is_it : u ≡ s = cc same in subst Fits is_it f
  | inr there ↦ AllFit-find id s m h (sym (ap (λ t. if t then some u else find id m) there) ∙ e)
]

pub AllFit-put :
    (id : ℕ) (t : PipelineSession) (m : Map PipelineSession)
    → Fits t
    → AllFit m
    → AllFit (put id t m)
unfolding put
AllFit-put id t [] f h = (f, tt)
AllFit-put id t ((k, u) ∷ m) f (g, h) = elim (Bool-cases (id == k)) [
  | inl here ↦ rw here (f, h)
  | inr there ↦ elim (Bool-cases (ltb id k)) [
    | inl before ↦ rw (there, before) (f, (g, h))
    | inr behind ↦ rw (there, behind) (g, AllFit-put id t m f h)
  ]
]

pub AllFit-erase : (id : ℕ) (m : Map PipelineSession) → AllFit m → AllFit (erase id m)
unfolding erase
AllFit-erase id [] h = tt
AllFit-erase id ((k, u) ∷ m) (g, h) = elim (Bool-cases (id == k)) [
  | inl here ↦ rw here h
  | inr there ↦ rw there (g, AllFit-erase id m h)
]

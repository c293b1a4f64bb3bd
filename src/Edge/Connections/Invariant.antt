-- ===== src/Edge/Connections/Invariant.antt =====
-- The table of connections against the index of the sessions.
use realm_mesh.Prelude.{
  ℕ, ◌<◌, ◌^◌, ◌≡◌, ◌≢◌, ==_iff, refl, sym, ◌∙◌, ap, subst, ◌⊎◌, inl, inr, false, ◌==◌,
  if◌then◌else◌, none, some, Text, TextMap, Map, find, put, erase, Ordered, find-put, find-erase,
  Ordered-put, Ordered-erase, Bool-cases, Option-cases, arith, add64, ==_refl,
}
use realm_mesh.Edge.Connections.{EdgeConnectionRecord, emplace, lookup, forget, connect}
use realm_mesh.Edge.Connections.Lookup.{
  find-emplace, emplace-Ordered, is_key, is_key_eq, is_key_refl, IsOrdered, lookup-connect,
  connect-IsOrdered, lookup-forget, forget-IsOrdered,
}

-- The key of a record.
abbrev pub name_of : EdgeConnectionRecord → Text
name_of r = r.primary.transport_name

abbrev pub session_of : EdgeConnectionRecord → ℕ
session_of r = r.primary.transport_session_id

-- The identifiers are below the next one, unless they have run out. Each record is found by its
-- session, and a session leads to a record of it.
pub record IsIndexed (c : Map EdgeConnectionRecord) (b : TextMap (Map ℕ)) (next : ℕ) : Type 0 where
  pub connections_ordered : Ordered 0 c
  pub sessions_ordered : IsOrdered b
  pub next_range : next < 2 ^ 64
  pub id_range :
      (id : ℕ) (r : EdgeConnectionRecord)
      → find id c ≡ some r
      → (next ≡ 0) ⊎ ((0 < id) × (id < next))
  pub located :
      (id : ℕ) (r : EdgeConnectionRecord)
      → find id c ≡ some r
      → lookup b (name_of r) (session_of r) ≡ some id
  pub recorded :
      (n : Text) (s id : ℕ)
      → lookup b n s ≡ some id
      → (r : EdgeConnectionRecord) × (find id c ≡ some r) × (name_of r ≡ n) × (session_of r ≡ s)

module _ (c : Map EdgeConnectionRecord) (b : TextMap (Map ℕ)) (next : ℕ)
    (v : IsIndexed c b next) where
  pub next_free : next ≢ 0 → find next c ≡ none
  next_free h = elim (Option-cases (find next c)) [
    | inl free ↦ free
    | inr (r, taken) ↦ absurd (ground (arith, v.id_range next r taken, h))
  ]

  module _ (r : EdgeConnectionRecord) (h : next ≢ 0)
      (free : lookup b (name_of r) (session_of r) ≡ none) where
    added_find : (id : ℕ) → find id (emplace next r c) ≡ (if id == next then some r else find id c)
    added_find id = find-emplace id next r c (next_free h)

    added_lookup :
        (n : Text) (s : ℕ)
        → lookup (connect b (name_of r) (session_of r) next) n s
          ≡ (if is_key n s (name_of r) (session_of r) then some next else lookup b n s)
    added_lookup n s = lookup-connect b (name_of r) (session_of r) next n s free

    added_at :
        (id : ℕ) (x : EdgeConnectionRecord)
        → find id (emplace next r c) ≡ some x
        → ((id ≡ next) × (r ≡ x)) ⊎ (((id == next) ≡ false) × (find id c ≡ some x))
    added_at id x e = elim (Bool-cases (id == next)) [
      | inl new ↦
          let same =
            sym (ap (λ t. if t then some r else find id c) new) ∙ sym (added_find id) ∙ e in
          inl ((==_iff id next).0 new, cc same)
      | inr old ↦
          inr (old, sym (ap (λ t. if t then some r else find id c) old) ∙ sym (added_find id) ∙ e)
    ]

    added_located :
        (id : ℕ) (x : EdgeConnectionRecord)
        → find id (emplace next r c) ≡ some x
        → lookup (connect b (name_of r) (session_of r) next) (name_of x) (session_of x) ≡ some id
    added_located id x e = elim (added_at id x e) [
      | inl (p, q) ↦
          subst
            (λ y.
              lookup (connect b (name_of r) (session_of r) next) (name_of y) (session_of y)
              ≡ some id)
            q
            (added_lookup (name_of r) (session_of r)
              ∙ ap (λ t. if t then some next else lookup b (name_of r) (session_of r))
                  (is_key_refl (name_of r) (session_of r))
              ∙ ap some (sym p))
      | inr (old, f) ↦
          let loc = v.located id x f in
          elim (Bool-cases (is_key (name_of x) (session_of x) (name_of r) (session_of r))) [
            | inl same ↦
                let (p, q) = is_key_eq (name_of x) (session_of x) (name_of r) (session_of r) same in
                let clash =
                  sym loc
                  ∙ ap (λ n. lookup b n (session_of x)) p
                  ∙ ap (lookup b (name_of r)) q
                  ∙ free in
                cc clash
            | inr other ↦
                added_lookup (name_of x) (session_of x)
                ∙ ap (λ t. if t then some next else lookup b (name_of x) (session_of x)) other
                ∙ loc
          ]
    ]

    added_recorded :
        (n : Text) (s id : ℕ)
        → lookup (connect b (name_of r) (session_of r) next) n s ≡ some id
        → (x : EdgeConnectionRecord) × (find id (emplace next r c) ≡ some x)
          × (name_of x ≡ n)
          × (session_of x ≡ s)
    added_recorded n s id e = elim (Bool-cases (is_key n s (name_of r) (session_of r))) [
      | inl new ↦
          let (p, q) = is_key_eq n s (name_of r) (session_of r) new in
          let same =
            sym (ap (λ t. if t then some next else lookup b n s) new)
            ∙ sym (added_lookup n s)
            ∙ e in
          let now : next ≡ id = cc same in
          (
            r,
            added_find id
                ∙ ap (λ t. if t then some r else find id c) ((==_iff id next).1 (sym now)),
            sym p,
            sym q,
          )
      | inr old ↦
          let f =
            sym (ap (λ t. if t then some next else lookup b n s) old)
            ∙ sym (added_lookup n s)
            ∙ e in
          let (x, fx, p, q) = v.recorded n s id f in
          elim (Bool-cases (id == next)) [
            | inl now ↦
                let clash =
                  sym (next_free h) ∙ ap (λ k. find k c) (sym ((==_iff id next).0 now)) ∙ fx in
                cc clash
            | inr other ↦
                (x, added_find id ∙ ap (λ t. if t then some r else find id c) other ∙ fx, p, q)
          ]
    ]

    pub added-IsIndexed :
        IsIndexed (emplace next r c) (connect b (name_of r) (session_of r) next) (add64 next 1)
    added-IsIndexed = record {
      connections_ordered = emplace-Ordered next r c v.connections_ordered;
      sessions_ordered = connect-IsOrdered b (name_of r) (session_of r) next v.sessions_ordered;
      next_range = omega arith;
      id_range = λ id x e. elim (added_at id x e) [
        | inl (p, q) ↦ omega (arith, p, h, v.next_range)
        | inr (old, f) ↦ omega (arith, v.id_range id x f, h, v.next_range)
      ];
      located = added_located;
      recorded = added_recorded;
    }

  module _ (gone : ℕ) (r : EdgeConnectionRecord) (here : find gone c ≡ some r) where
    removed_find : (id : ℕ) → find id (erase gone c) ≡ (if id == gone then none else find id c)
    removed_find id = find-erase id gone 0 c v.connections_ordered

    removed_lookup :
        (n : Text) (s : ℕ)
        → lookup (forget b (name_of r) (session_of r)) n s
          ≡ (if is_key n s (name_of r) (session_of r) then none else lookup b n s)
    removed_lookup n s = lookup-forget b (name_of r) (session_of r) 0 n s v.sessions_ordered

    removed_at :
        (id : ℕ) (x : EdgeConnectionRecord)
        → find id (erase gone c) ≡ some x
        → ((id == gone) ≡ false) × (find id c ≡ some x)
    removed_at id x e = elim (Bool-cases (id == gone)) [
      | inl same ↦
          let clash =
            sym (ap (λ t. if t then none else find id c) same) ∙ sym (removed_find id) ∙ e in
          cc clash
      | inr other ↦
          (other, sym (ap (λ t. if t then none else find id c) other) ∙ sym (removed_find id) ∙ e)
    ]

    removed_located :
        (id : ℕ) (x : EdgeConnectionRecord)
        → find id (erase gone c) ≡ some x
        → lookup (forget b (name_of r) (session_of r)) (name_of x) (session_of x) ≡ some id
    removed_located id x e =
        let (other, f) = removed_at id x e in
        let loc = v.located id x f in
        elim (Bool-cases (is_key (name_of x) (session_of x) (name_of r) (session_of r))) [
          | inl same ↦
              let (p, q) = is_key_eq (name_of x) (session_of x) (name_of r) (session_of r) same in
              let both =
                sym loc
                ∙ ap (λ n. lookup b n (session_of x)) p
                ∙ ap (lookup b (name_of r)) q
                ∙ v.located gone r here in
              let id_same : id ≡ gone = cc both in absurd (ground (arith, other, id_same))
          | inr apart ↦
              removed_lookup (name_of x) (session_of x)
              ∙ ap (λ t. if t then none else lookup b (name_of x) (session_of x)) apart
              ∙ loc
        ]

    removed_recorded :
        (n : Text) (s id : ℕ)
        → lookup (forget b (name_of r) (session_of r)) n s ≡ some id
        → (x : EdgeConnectionRecord) × (find id (erase gone c) ≡ some x)
          × (name_of x ≡ n)
          × (session_of x ≡ s)
    removed_recorded n s id e = elim (Bool-cases (is_key n s (name_of r) (session_of r))) [
      | inl same ↦
          let clash =
            sym (ap (λ t. if t then none else lookup b n s) same) ∙ sym (removed_lookup n s) ∙ e in
          cc clash
      | inr apart ↦
          let f =
            sym (ap (λ t. if t then none else lookup b n s) apart) ∙ sym (removed_lookup n s) ∙ e in
          let (x, fx, p, q) = v.recorded n s id f in
          elim (Bool-cases (id == gone)) [
            | inl now ↦
                let both = sym here ∙ ap (λ k. find k c) (sym ((==_iff id gone).0 now)) ∙ fx in
                let same : r ≡ x = cc both in
                let name : n ≡ name_of r = sym p ∙ ap name_of (sym same) in
                let session : s ≡ session_of r = sym q ∙ ap session_of (sym same) in
                let clash =
                  sym apart
                  ∙ ap (λ m. is_key m s (name_of r) (session_of r)) name
                  ∙ ap (λ k. is_key (name_of r) k (name_of r) (session_of r)) session
                  ∙ is_key_refl (name_of r) (session_of r) in
                cc clash
            | inr other ↦
                (x, removed_find id ∙ ap (λ t. if t then none else find id c) other ∙ fx, p, q)
          ]
    ]

    pub removed-IsIndexed : IsIndexed (erase gone c) (forget b (name_of r) (session_of r)) next
    removed-IsIndexed = record {
      connections_ordered = Ordered-erase gone 0 c v.connections_ordered;
      sessions_ordered = forget-IsOrdered b (name_of r) (session_of r) 0 v.sessions_ordered;
      next_range = v.next_range;
      id_range = λ id x e. v.id_range id x (removed_at id x e).1;
      located = removed_located;
      recorded = removed_recorded;
    }

    pub removed_unknown : find gone (erase gone c) ≡ none
    removed_unknown = removed_find gone ∙ ap (λ t. if t then none else find gone c) (==_refl gone)

    pub removed_unfound :
        lookup (forget b (name_of r) (session_of r)) (name_of r) (session_of r) ≡ none
    removed_unfound =
        removed_lookup (name_of r) (session_of r)
        ∙ ap (λ t. if t then none else lookup b (name_of r) (session_of r))
            (is_key_refl (name_of r) (session_of r))

    module _ (new : EdgeConnectionRecord) (name : name_of new ≡ name_of r)
        (session : session_of new ≡ session_of r) where
      changed_at :
          (id : ℕ) (x : EdgeConnectionRecord)
          → find id (put gone new c) ≡ some x
          → (y : EdgeConnectionRecord) × (find id c ≡ some y)
            × (name_of x ≡ name_of y)
            × (session_of x ≡ session_of y)
      changed_at id x e = elim (Bool-cases (id == gone)) [
        | inl same ↦
            let both =
              sym (ap (λ t. if t then some new else find id c) same)
              ∙ sym (find-put id gone new c)
              ∙ e in
            let is_new : new ≡ x = cc both in
            (
              r,
              ap (λ k. find k c) ((==_iff id gone).0 same) ∙ here,
              ap name_of (sym is_new) ∙ name,
              ap session_of (sym is_new) ∙ session,
            )
        | inr other ↦ (
          x,
          sym (ap (λ t. if t then some new else find id c) other)
              ∙ sym (find-put id gone new c)
              ∙ e,
          refl,
          refl,
        )
      ]

      changed_recorded :
          (n : Text) (s id : ℕ)
          → lookup b n s ≡ some id
          → (x : EdgeConnectionRecord) × (find id (put gone new c) ≡ some x)
            × (name_of x ≡ n)
            × (session_of x ≡ s)
      changed_recorded n s id e =
          let (x, fx, p, q) = v.recorded n s id e in
          elim (Bool-cases (id == gone)) [
            | inl same ↦
                let both = sym here ∙ ap (λ k. find k c) (sym ((==_iff id gone).0 same)) ∙ fx in
                let is_old : r ≡ x = cc both in
                (
                  new,
                  find-put id gone new c ∙ ap (λ t. if t then some new else find id c) same,
                  name ∙ ap name_of is_old ∙ p,
                  session ∙ ap session_of is_old ∙ q,
                )
            | inr other ↦ (
              x,
              find-put id gone new c ∙ ap (λ t. if t then some new else find id c) other ∙ fx,
              p,
              q,
            )
          ]

      pub changed-IsIndexed : IsIndexed (put gone new c) b next
      changed-IsIndexed = record {
        connections_ordered = Ordered-put gone 0 new c (omega arith) v.connections_ordered;
        sessions_ordered = v.sessions_ordered;
        next_range = v.next_range;
        id_range = λ id x e. let (y, f, p, q) = changed_at id x e in v.id_range id y f;
        located = λ id x e.
            let (y, f, p, q) = changed_at id x e in
            ap (λ n. lookup b n (session_of x)) p ∙ ap (lookup b (name_of y)) q ∙ v.located id y f;
        recorded = changed_recorded;
      }

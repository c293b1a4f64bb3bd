-- ===== src/Edge/Connections/Lookup.antt =====
-- The two-level map from the sessions of the transports to the connections.
use realm_mesh.Prelude.{
  ℕ, ◌≡◌, refl, sym, ◌∙◌, ap, ◌⊎◌, inl, inr, [], ◌∷◌, Bool, true, false, ◌&&◌, ◌==◌, if◌then◌else◌,
  Option, none, some, Text, TextMap, insert_or_assign, text_eq, text_eq_refl, ==_refl,
  insert_or_assign_self, text_eq→eq, Map, find, contains, erase, Ordered, find-put, find-erase,
  contains-find-none, Bool-cases, Option-cases, Ordered-put, subst, Ordered-erase, arith,
}
use realm_mesh.Edge.Connections.{
  emplace, or_empty, is_empty, without, find_in, lookup, keep_sessions, forget, connect,
}

pub find-emplace :
    {V : Type 0} (j k : ℕ) (v : V) (m : Map V)
    → find k m ≡ none
    → find j (emplace k v m) ≡ (if j == k then some v else find j m)
find-emplace j k v m e = rw (contains-find-none k m e) (find-put j k v m)

pub emplace-Ordered :
    {V : Type 0} (k : ℕ) (v : V) (m : Map V) → Ordered 0 m → Ordered 0 (emplace k v m)
emplace-Ordered k v m h = elim (Bool-cases (contains k m)) [
  | inl there ↦ rw there h
  | inr absent ↦ rw absent (Ordered-put k 0 v m (omega arith) h)
]

-- The key of a session.
abbrev pub is_key : Text → ℕ → Text → ℕ → Bool
is_key name' session' name session = text_eq name' name && session' == session

pub is_key_eq :
    (n : Text) (s : ℕ) (name : Text) (session : ℕ)
    → is_key n s name session ≡ true
    → (n ≡ name) × (s ≡ session)
is_key_eq n s name session e = elim (Bool-cases (text_eq n name)) [
  | inl same ↦ (text_eq→eq n name same, ground (arith, same, e))
  | inr other ↦ ground (arith, other, e)
]

pub is_key_refl : (name : Text) (session : ℕ) → is_key name session name session ≡ true
is_key_refl name session = rw (text_eq_refl name) (==_refl session)

-- Each inner map is ordered.
abbrev pub IsOrdered : TextMap (Map ℕ) → Type 0
IsOrdered m = (name : Text) (sessions : Map ℕ) → m name ≡ some sessions → Ordered 0 sessions

insert_or_assign_other :
    {V : Type 0} (key k : Text) (v : V) (m : TextMap V)
    → text_eq k key ≡ false
    → insert_or_assign key v m k ≡ m k
unfolding insert_or_assign
insert_or_assign_other key k v m e = rw e refl

without_self : {V : Type 0} (key : Text) (m : TextMap V) → without key m key ≡ none
unfolding without
without_self key m = rw (text_eq_refl key) refl

without_other :
    {V : Type 0} (key k : Text) (m : TextMap V) → text_eq k key ≡ false → without key m k ≡ m k
unfolding without
without_other key k m e = rw e refl

inner_lookup : (o : Option (Map ℕ)) (s : ℕ) → find s (or_empty o) ≡ find_in o s
unfolding find
inner_lookup none s = refl
inner_lookup (some sessions) s = refl

inner-Ordered : (m : TextMap (Map ℕ)) (name : Text) → IsOrdered m → Ordered 0 (or_empty (m name))
inner-Ordered m name o = elim (Option-cases (m name)) [
  | inl absent ↦ rw absent tt
  | inr (sessions, present) ↦ rw present (o name sessions present)
]

module _ (m : TextMap (Map ℕ)) (name : Text) (session id : ℕ) where
  connect_here :
      (s : ℕ)
      → lookup m name session ≡ none
      → lookup (connect m name session id) name s
        ≡ (if s == session then some id else lookup m name s)
  connect_here s e =
      ap (λ o. find_in o s) (insert_or_assign_self name (emplace session id (or_empty (m name))) m)
      ∙ find-emplace s session id (or_empty (m name)) (inner_lookup (m name) session ∙ e)
      ∙ ap (λ o. if s == session then some id else o) (inner_lookup (m name) s)

  -- A session that was not connected is, and no other entry changes.
  pub lookup-connect :
      (n : Text) (s : ℕ)
      → lookup m name session ≡ none
      → lookup (connect m name session id) n s
        ≡ (if is_key n s name session then some id else lookup m n s)
  lookup-connect n s e = elim (Bool-cases (text_eq n name)) [
    | inl same ↦ rw (text_eq→eq n name same, text_eq_refl name) (connect_here s e)
    | inr other ↦ rw other (
        ap (λ o. find_in o s)
          (insert_or_assign_other name n (emplace session id (or_empty (m name))) m other))
  ]

  assigned-IsOrdered :
      (inner : Map ℕ) → Ordered 0 inner → IsOrdered m → IsOrdered (insert_or_assign name inner m)
  unfolding insert_or_assign
  assigned-IsOrdered inner h o n sessions e = elim (Bool-cases (text_eq n name)) [
    | inl same ↦
        subst (λ x. Ordered 0 (or_empty x))
          (sym (insert_or_assign_self name inner m)
            ∙ ap (insert_or_assign name inner m) (sym (text_eq→eq n name same))
            ∙ e)
          h
    | inr other ↦ o n sessions (sym (insert_or_assign_other name n inner m other) ∙ e)
  ]

  pub connect-IsOrdered : IsOrdered m → IsOrdered (connect m name session id)
  connect-IsOrdered o =
      assigned-IsOrdered (emplace session id (or_empty (m name)))
        (emplace-Ordered session id (or_empty (m name)) (inner-Ordered m name o)) o

  find_empty : (inner : Map ℕ) (s : ℕ) → is_empty inner ≡ true → find s inner ≡ none
  unfolding find
  find_empty [] s e = refl
  find_empty (x ∷ inner) s e = cc

  keep_here : (inner : Map ℕ) (s : ℕ) → lookup (keep_sessions m name inner) name s ≡ find s inner
  keep_here inner s = elim (Bool-cases (is_empty inner)) [
    | inl last ↦
        rw last (ap (λ o. find_in o s) (without_self name m) ∙ sym (find_empty inner s last))
    | inr more ↦ rw more (ap (λ o. find_in o s) (insert_or_assign_self name inner m))
  ]

  keep_other :
      (inner : Map ℕ) (n : Text) → text_eq n name ≡ false → keep_sessions m name inner n ≡ m n
  keep_other inner n other = elim (Bool-cases (is_empty inner)) [
    | inl last ↦ rw last (without_other name n m other)
    | inr more ↦ rw more (insert_or_assign_other name n inner m other)
  ]

  keep-IsOrdered :
      (inner : Map ℕ) → Ordered 0 inner → IsOrdered m → IsOrdered (keep_sessions m name inner)
  unfolding without
  keep-IsOrdered inner h o = elim (Bool-cases (is_empty inner)) [
    | inl last ↦ rw last (λ n sessions e. elim (Bool-cases (text_eq n name)) [
      | inl same ↦ ground (arith, same, e)
      | inr other ↦ o n sessions (sym (without_other name n m other) ∙ e)
    ])
    | inr more ↦ rw more (assigned-IsOrdered inner h o)
  ]

  forget_cases :
      ((m name ≡ none) × (forget m name session ≡ m))
      ⊎ ((sessions : Map ℕ) × (m name ≡ some sessions)
          × (forget m name session ≡ keep_sessions m name (erase session sessions)))
  forget_cases = elim (Option-cases (m name)) [
    | inl absent ↦ inl (absent, rw absent refl)
    | inr (sessions, present) ↦ inr (sessions, present, rw present refl)
  ]

  -- The entry of the session goes, and no other.
  pub lookup-forget :
      (n : Text) (s : ℕ)
      → IsOrdered m
      → lookup (forget m name session) n s
        ≡ (if is_key n s name session then none else lookup m n s)
  lookup-forget n s o = elim forget_cases [
    | inl (absent, e) ↦ elim (Bool-cases (text_eq n name)) [
      | inl same ↦ rw (e, text_eq→eq n name same, absent) (ground arith)
      | inr other ↦ rw (e, other) refl
    ]
    | inr (sessions, present, e) ↦ elim (Bool-cases (text_eq n name)) [
      | inl same ↦
          rw (e, text_eq→eq n name same, text_eq_refl name, present)
            (keep_here (erase session sessions) s
              ∙ find-erase s session 0 sessions (o name sessions present))
      | inr other ↦
          rw (e, other) (ap (λ x. find_in x s) (keep_other (erase session sessions) n other))
    ]
  ]

  pub forget-IsOrdered : IsOrdered m → IsOrdered (forget m name session)
  forget-IsOrdered o = elim forget_cases [
    | inl (absent, e) ↦ rw e o
    | inr (sessions, present, e) ↦ rw e (
        keep-IsOrdered (erase session sessions)
          (Ordered-erase session 0 sessions (o name sessions present)) o)
  ]

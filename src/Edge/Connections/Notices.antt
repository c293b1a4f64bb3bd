-- ===== src/Edge/Connections/Notices.antt =====
-- Sequences of calls of the table, and the ends of connections that they report.
use realm_mesh.Prelude.{
  ℕ, ◌<◌, ◌≡◌, ◌≢◌, subst, All, refl, sym, ◌∙◌, ap, ◌⊎◌, inl, inr, List, [], ◌∷◌, true, false, ◌==◌,
  ◌||◌, if◌then◌else◌, Option, none, some, Text, find, put, erase, find-put, find-erase, Bool-cases,
  Option-cases, arith, add64, length, Result, ok, err, ==_iff,
}
use realm_mesh.Edge.Connections.{
  MessageTransport, EdgeConnectionRecord, ClosedEdgeConnection, EdgeConnectionTable, emplace,
  lookup, forget, connect, closed_of, find_connection, record_of, erase_connection,
  on_transport_closed, opened, open_connection, close_transport, close, establish, update_source,
  send,
}
use realm_mesh.Edge.Connections.Lookup.{find-emplace}
use realm_mesh.Edge.Connections.Invariant.{
  IsIndexed, name_of, session_of, next_free, added-IsIndexed, removed-IsIndexed, removed_unknown,
  removed_unfound, changed-IsIndexed,
}

-- The calls of the runtime after the start.
pub data TableCall : Type 0 where
  opens : Text → ℕ → Text → TableCall
  updates : ℕ → Text → TableCall
  establishes : ℕ → TableCall
  sends : ℕ → List ℕ → TableCall
  transport_closes : Text → ℕ → TableCall
  closes : ℕ → TableCall

-- What a call leaves, and the end of a connection that it reports.
abbrev pub Outcome : Type 0 → Type 0
Outcome T = EdgeConnectionTable T × Option ClosedEdgeConnection

module _ {T : Type 0} where
  -- The table and its index name each other.
  abbrev pub IsValid : EdgeConnectionTable T → Type 0
  IsValid t = IsIndexed t.connections t.by_transport t.next_connection_id

  -- The identifier was given out, and no connection has it.
  abbrev pub IsRetired : EdgeConnectionTable T → ℕ → Type 0
  IsRetired t id =
      (find id t.connections ≡ none) × ((t.next_connection_id ≡ 0) ⊎ (id < t.next_connection_id))

  -- No entry is touched.
  abbrev Quiet : EdgeConnectionTable T → Outcome T → Type 0
  Quiet t (u, report) =
      (u.connections ≡ t.connections)
      × (u.by_transport ≡ t.by_transport)
      × (u.next_connection_id ≡ t.next_connection_id)
      × (report ≡ none)

  -- A connection is new.
  abbrev Added : EdgeConnectionTable T → Outcome T → Type 0
  Added t (u, report) =
      (r : EdgeConnectionRecord) × (lookup t.by_transport (name_of r) (session_of r) ≡ none)
      × (t.next_connection_id ≢ 0)
      × (u.connections ≡ emplace t.next_connection_id r t.connections)
      × (u.by_transport ≡ connect t.by_transport (name_of r) (session_of r) t.next_connection_id)
      × (u.next_connection_id ≡ add64 t.next_connection_id 1)
      × (report ≡ none)

  -- A connection has another source or stage.
  abbrev Changed : EdgeConnectionTable T → Outcome T → Type 0
  Changed t (u, report) =
      (id : ℕ) × (r : EdgeConnectionRecord) × (new : EdgeConnectionRecord) × (find id t.connections
        ≡ some r)
      × (new.primary ≡ r.primary)
      × (u.connections ≡ put id new t.connections)
      × (u.by_transport ≡ t.by_transport)
      × (u.next_connection_id ≡ t.next_connection_id)
      × (report ≡ none)

  -- A connection ends, and this is reported.
  abbrev Ended : EdgeConnectionTable T → Outcome T → Type 0
  Ended t (u, report) =
      (id : ℕ) × (r : EdgeConnectionRecord) × (find id t.connections ≡ some r)
      × (u.connections ≡ erase id t.connections)
      × (u.by_transport ≡ forget t.by_transport (name_of r) (session_of r))
      × (u.next_connection_id ≡ t.next_connection_id)
      × (report ≡ some (closed_of id r))

  abbrev Effect : EdgeConnectionTable T → Outcome T → Type 0
  Effect t o = Quiet t o ⊎ (Added t o ⊎ (Changed t o ⊎ Ended t o))

  nothing : (t : EdgeConnectionTable T) → Effect t (t, none)
  nothing t = inl (refl, refl, refl, refl)

  put-Effect :
      (t u : EdgeConnectionTable T) (id : ℕ) (r new : EdgeConnectionRecord)
      → find id t.connections ≡ some r
      → new.primary ≡ r.primary
      → u ≡ record t { connections = put id new t.connections }
      → Effect t (u, none)
  put-Effect t u id r new here p e = inr (
      inr (
        inl (
          id,
          r,
          new,
          here,
          p,
          ap (λ x. x.connections) e,
          ap (λ x. x.by_transport) e,
          ap (λ x. x.next_connection_id) e,
          refl,
        )))

  same-Effect : (t u : EdgeConnectionTable T) → u ≡ t → Effect t (u, none)
  same-Effect t u e = inl (
    ap (λ x. x.connections) e,
    ap (λ x. x.by_transport) e,
    ap (λ x. x.next_connection_id) e,
    refl,
  )

  updates-Effect :
      (t : EdgeConnectionTable T) (id : ℕ) (source : Text)
      → Effect t ((update_source t id source).0, none)
  unfolding update_source
  updates-Effect t id source = elim (Option-cases (find id t.connections)) [
    | inl unknown ↦ same-Effect t (update_source t id source).0 (ground (arith, unknown))
    | inr (r, here) ↦ elim (Bool-cases (length source == 0)) [
      | inl bare ↦ same-Effect t (update_source t id source).0 (ground (arith, here, bare))
      | inr fine ↦
          put-Effect t (update_source t id source).0 id r (record r { source = source }) here refl
            (ground (arith, here, fine))
    ]
  ]

  establishes-Effect : (t : EdgeConnectionTable T) (id : ℕ) → Effect t ((establish t id).0, none)
  unfolding establish
  establishes-Effect t id = elim (Option-cases (find id t.connections)) [
    | inl unknown ↦ same-Effect t (establish t id).0 (ground (arith, unknown))
    | inr (r, here) ↦ elim (Bool-cases r.established) [
      | inl twice ↦ same-Effect t (establish t id).0 (ground (arith, here, twice))
      | inr first ↦
          put-Effect t (establish t id).0 id r (record r { established = true }) here refl
            (ground (arith, here, first))
    ]
  ]

  end-Effect :
      (t u : EdgeConnectionTable T) (o : Outcome T) (id : ℕ) (r : EdgeConnectionRecord)
      → find id t.connections ≡ some r
      → u.connections ≡ t.connections
      → u.by_transport ≡ t.by_transport
      → u.next_connection_id ≡ t.next_connection_id
      → o ≡ (erase_connection u id r, some (closed_of id r))
      → Effect t o
  unfolding erase_connection
  end-Effect t u o id r here a b c e = subst (Effect t) (sym e) (
      inr (
        inr (
          inr (
            id,
            r,
            here,
            ap (erase id) a,
            ap (λ m. forget m (name_of r) (session_of r)) b,
            c,
            refl,
          ))))

  transport_closes-Effect :
      (t : EdgeConnectionTable T) (name : Text) (session : ℕ)
      → IsValid t
      → Effect t (on_transport_closed t name session)
  unfolding on_transport_closed erase_connection
  transport_closes-Effect t name session v =
      elim (Option-cases (lookup t.by_transport name session)) [
        | inl unknown ↦
            let run : on_transport_closed t name session ≡ (t, none) = ground (arith, unknown) in
            subst (Effect t) (sym run) (nothing t)
        | inr (id, found) ↦
            let (r, here, p, q) = v.recorded name session id found in
            let run : on_transport_closed t name session
                ≡ (erase_connection t id r, some (closed_of id r)) =
              ground (arith, found, here) in
            end-Effect t t (on_transport_closed t name session) id r here refl refl refl run
      ]

-- The list of the reports.
abbrev reported :
    Option ClosedEdgeConnection → List ClosedEdgeConnection → List ClosedEdgeConnection
reported none ends = ends
reported (some n) ends = n ∷ ends

module _ {T : Type 0} (ops : MessageTransport T) where
  -- An `open` that throws leaves the table.
  abbrev opened_or : EdgeConnectionTable T → Result (EdgeConnectionTable T × ℕ) → Outcome T
  opened_or t (ok (u, id)) = (u, none)
  opened_or t (err e) = (t, none)

  unfoldable pub call : EdgeConnectionTable T → TableCall → Outcome T
  unfolding open_connection update_source establish send on_transport_closed close
  call t (opens name session source) = opened_or t (open_connection ops t name session source)
  call t (updates id source) = ((update_source t id source).0, none)
  call t (establishes id) = ((establish t id).0, none)
  call t (sends id payload) = ((send ops t id payload).0, none)
  call t (transport_closes name session) = on_transport_closed t name session
  call t (closes id) = close ops t id

  sends-Effect :
      (t : EdgeConnectionTable T) (id : ℕ) (payload : List ℕ)
      → Effect t ((send ops t id payload).0, none)
  unfolding send
  sends-Effect t id payload = elim (Option-cases (find id t.connections)) [
    | inl unknown ↦ same-Effect t (send ops t id payload).0 (ground (arith, unknown))
    | inr (r, here) ↦ elim (Option-cases (t.transports (name_of r))) [
      | inl none_left ↦ same-Effect t (send ops t id payload).0 (ground (arith, here, none_left))
      | inr (transport, there) ↦ inl (ground (arith, here, there))
    ]
  ]

  close_transport_same :
      (t : EdgeConnectionTable T) (r : EdgeConnectionRecord)
      → ((close_transport ops t r).connections ≡ t.connections)
        × ((close_transport ops t r).by_transport ≡ t.by_transport)
        × ((close_transport ops t r).next_connection_id ≡ t.next_connection_id)
  unfolding close_transport
  close_transport_same t r = elim (Option-cases (t.transports (name_of r))) [
    | inl none_left ↦ ground (arith, none_left)
    | inr (transport, there) ↦ ground (arith, there)
  ]

  close_run :
      (t : EdgeConnectionTable T) (id : ℕ) (r : EdgeConnectionRecord)
      → find id t.connections ≡ some r
      → close ops t id ≡ (erase_connection (close_transport ops t r) id r, some (closed_of id r))
  unfolding close
  close_run t id r here = ground (arith, here)

  close_unknown :
      (t : EdgeConnectionTable T) (id : ℕ)
      → find id t.connections ≡ none
      → close ops t id ≡ (t, none)
  unfolding close
  close_unknown t id e = ground (arith, e)

  closes-Effect : (t : EdgeConnectionTable T) (id : ℕ) → Effect t (close ops t id)
  closes-Effect t id = elim (Option-cases (find id t.connections)) [
    | inl unknown ↦ subst (Effect t) (sym (close_unknown t id unknown)) (nothing t)
    | inr (r, here) ↦
        let (a, b, c) = close_transport_same t r in
        end-Effect t (close_transport ops t r) (close ops t id) id r here a b c
          (close_run t id r here)
  ]

  open-Effect :
      (t : EdgeConnectionTable T) (name : Text) (session : ℕ) (source : Text)
      → Effect t (opened_or t (open_connection ops t name session source))
  unfolding open_connection opened
  open-Effect t name session source = elim (Option-cases (t.transports name)) [
    | inl unknown ↦ inl (ground (arith, unknown))
    | inr (transport, there) ↦ elim (Bool-cases (session == 0 || length source == 0)) [
      | inl bad ↦ inl (ground (arith, there, bad))
      | inr good ↦ elim (Option-cases (lookup t.by_transport name session)) [
        | inr (id, known) ↦ inl (ground (arith, there, good, known))
        | inl free ↦ elim (Bool-cases (t.next_connection_id == 0)) [
          | inl exhausted ↦ inl (ground (arith, there, good, free, exhausted))
          | inr left ↦
              let run : open_connection ops t name session source
                  ≡ ok (opened ops t transport name session source, t.next_connection_id) =
                ground (arith, there, good, free, left) in
              let some_left : t.next_connection_id ≢ 0 = ground (arith, left) in
              subst (λ x. Effect t (opened_or t x)) (sym run)
                (inr (
                  inl (
                    record {
                      primary = record {
                        transport_name = name;
                        protocol = ops.protocol transport;
                        transport_session_id = session;
                      };
                      source = source;
                      established = false;
                    },
                    free,
                    some_left,
                    refl,
                    refl,
                    refl,
                    refl,
                  )))
        ]
      ]
    ]
  ]

  call-Effect : (t : EdgeConnectionTable T) (c : TableCall) → IsValid t → Effect t (call t c)
  unfolding call
  call-Effect t (opens name session source) v = open-Effect t name session source
  call-Effect t (updates id source) v = updates-Effect t id source
  call-Effect t (establishes id) v = establishes-Effect t id
  call-Effect t (sends id payload) v = sends-Effect t id payload
  call-Effect t (transport_closes name session) v = transport_closes-Effect t name session v
  call-Effect t (closes id) v = closes-Effect t id

  Valid_after : (t : EdgeConnectionTable T) (o : Outcome T) → Effect t o → IsValid t → IsValid o.0
  Valid_after t (u, report) (inl (a, b, c, d)) v = rw (a, b, c) v
  Valid_after t (u, report) (inr (inl (r, free, h, a, b, c, d))) v =
      rw (a, b, c) (added-IsIndexed t.connections t.by_transport t.next_connection_id v r h free)
  Valid_after t (u, report) (inr (inr (inl (id, r, new, here, p, a, b, c, d)))) v =
      rw (a, b, c)
        (changed-IsIndexed t.connections t.by_transport t.next_connection_id v id r here new
          (ap (λ q. q.transport_name) p) (ap (λ q. q.transport_session_id) p))
  Valid_after t (u, report) (inr (inr (inr (id, r, here, a, b, c, d)))) v =
      rw (a, b, c) (removed-IsIndexed t.connections t.by_transport t.next_connection_id v id r here)

  other_id :
      (t : EdgeConnectionTable T) (gone id : ℕ) (r : EdgeConnectionRecord)
      → find gone t.connections ≡ none
      → find id t.connections ≡ some r
      → (gone == id) ≡ false
  other_id t gone id r f here = elim (Bool-cases (gone == id)) [
    | inl same ↦
        let clash = sym f ∙ ap (λ k. find k t.connections) ((==_iff gone id).0 same) ∙ here in
        cc clash
    | inr other ↦ other
  ]

  -- What stays true of an identifier that was retired.
  Retired_after :
      (t : EdgeConnectionTable T) (o : Outcome T) (gone : ℕ)
      → Effect t o
      → IsValid t
      → IsRetired t gone
      → IsRetired o.0 gone × ((n : ClosedEdgeConnection) → o.1 ≡ some n → n.connection_id ≢ gone)
  Retired_after t (u, report) gone (inl (a, b, c, d)) v (f, below) =
      (rw (a, c) (f, below), λ n e. cc (d, e))
  Retired_after t (u, report) gone (inr (inl (r, free, h, a, b, c, d))) v (f, below) =
      let apart : (gone == t.next_connection_id) ≡ false = ground (arith, below, h) in
      let free_id = next_free t.connections t.by_transport t.next_connection_id v h in
      let range : (add64 t.next_connection_id 1 ≡ 0) ⊎ (gone < add64 t.next_connection_id 1) =
        omega (arith, v.next_range, below, h) in
      (
        (
          ap (find gone) a
              ∙ find-emplace gone t.next_connection_id r t.connections free_id
              ∙ ap (λ x. if x then some r else find gone t.connections) apart
              ∙ f,
          subst (λ k. (k ≡ 0) ⊎ (gone < k)) (sym c) range,
        ),
        λ n e. cc (d, e),
      )
  Retired_after t (u, report) gone (inr (inr (inl (id, r, new, here, p, a, b, c, d)))) v
        (f, below) =
      (
        (
          ap (find gone) a
              ∙ find-put gone id new t.connections
              ∙ ap (λ x. if x then some new else find gone t.connections)
                  (other_id t gone id r f here)
              ∙ f,
          subst (λ k. (k ≡ 0) ⊎ (gone < k)) (sym c) below,
        ),
        λ n e. cc (d, e),
      )
  Retired_after t (u, report) gone (inr (inr (inr (id, r, here, a, b, c, d)))) v (f, below) =
      let apart = other_id t gone id r f here in
      (
        (
          ap (find gone) a
              ∙ find-erase gone id 0 t.connections v.connections_ordered
              ∙ ap (λ x. if x then none else find gone t.connections) apart
              ∙ f,
          subst (λ k. (k ≡ 0) ⊎ (gone < k)) (sym c) below,
        ),
        λ n e same.
            let both = sym d ∙ e in
            let is_it : closed_of id r ≡ n = cc both in
            let name : id ≡ gone = ap (λ x. x.connection_id) is_it ∙ same in
            absurd (ground (arith, apart, name)),
      )

  -- The table after a sequence of calls, and the ends that they report.
  unfoldable pub run :
      EdgeConnectionTable T → List TableCall → EdgeConnectionTable T × List ClosedEdgeConnection
  unfolding call
  run t [] = (t, [])
  run t (c ∷ calls) = let (u, ends) = run (call t c).0 calls in (u, reported (call t c).1 ends)

  -- If the table and its index name each other, they do after any sequence of calls.
  pub run-IsValid :
      (t : EdgeConnectionTable T) (calls : List TableCall) → IsValid t → IsValid (run t calls).0
  unfolding run
  run-IsValid t [] v = v
  run-IsValid t (c ∷ calls) v =
      run-IsValid (call t c).0 calls (Valid_after t (call t c) (call-Effect t c v) v)

  reported_of :
      (report : Option ClosedEdgeConnection) (ends : List ClosedEdgeConnection) (gone : ℕ)
      → ((n : ClosedEdgeConnection) → report ≡ some n → n.connection_id ≢ gone)
      → All (λ n. n.connection_id ≢ gone) ends
      → All (λ n. n.connection_id ≢ gone) (reported report ends)
  reported_of none ends gone h k = k
  reported_of (some n) ends gone h k = (h n refl, k)

  run-IsRetired :
      (t : EdgeConnectionTable T) (calls : List TableCall) (gone : ℕ)
      → IsValid t
      → IsRetired t gone
      → IsRetired (run t calls).0 gone × All (λ n. n.connection_id ≢ gone) (run t calls).1
  unfolding run
  run-IsRetired t [] gone v h = (h, tt)
  run-IsRetired t (c ∷ calls) gone v h =
      let e = call-Effect t c v in
      let (k, apart) = Retired_after t (call t c) gone e v h in
      let (rest, others) = run-IsRetired (call t c).0 calls gone (Valid_after t (call t c) e v) k in
      (rest, reported_of (call t c).1 (run (call t c).0 calls).1 gone apart others)

  -- In a table that its index matches, `close` on the identifier of a connection reports its end. Its
  -- session is not found any more, and after it, whatever is called, no connection has the identifier
  -- and no end of a connection of that identifier is reported.
  pub close_once :
      (t : EdgeConnectionTable T) (id : ℕ) (r : EdgeConnectionRecord) (calls : List TableCall)
      → IsValid t
      → record_of t id ≡ some r
      → ((close ops t id).1 ≡ some (closed_of id r))
        × (find_connection (close ops t id).0 (name_of r) (session_of r) ≡ none)
        × IsRetired (run (close ops t id).0 calls).0 id
        × All (λ n. n.connection_id ≢ id) (run (close ops t id).0 calls).1
  unfolding record_of find_connection erase_connection
  close_once t id r calls v here =
      let (a, b, c) = close_transport_same t r in
      let done = close_run t id r here in
      let unknown =
        ap (λ o. find id o.0.connections) done
        ∙ ap (λ m. find id (erase id m)) a
        ∙ removed_unknown t.connections t.by_transport t.next_connection_id v id r here in
      let unfound =
        ap (λ o. lookup o.0.by_transport (name_of r) (session_of r)) done
        ∙ ap (λ m. lookup (forget m (name_of r) (session_of r)) (name_of r) (session_of r)) b
        ∙ removed_unfound t.connections t.by_transport t.next_connection_id v id r here in
      let next = ap (λ o. o.0.next_connection_id) done ∙ c in
      let below : (t.next_connection_id ≡ 0) ⊎ (id < t.next_connection_id) =
        omega (arith, v.id_range id r here) in
      let (retired, silent) =
        run-IsRetired (close ops t id).0 calls id
          (Valid_after t (close ops t id) (closes-Effect t id) v)
          (unknown, subst (λ k. (k ≡ 0) ⊎ (id < k)) (sym next) below) in
      (ap (λ o. o.1) done, unfound, retired, silent)

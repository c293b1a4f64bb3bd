-- ===== src/Concurrency/BoundedQueue/Order.antt =====
-- Sequences of calls of a bounded queue: what it took in and what it gave out.
use realm_mesh.Prelude.{
  ℕ, ◌≤◌, ◌≡◌, refl, sym, ◌∙◌, ap, inl, inr, List, [], ◌∷◌, ◌++◌, Bool, true, false, leb, Option,
  none, some, length, min, take-append-drop, length-drop, length-append, Bool-cases, arith,
}
use mathlib.Core.List.{append_assoc, append-nil}
use realm_mesh.Concurrency.BoundedQueue.{BoundedQueue, try_push, pop_of, try_pop, drain}

pub data QueueCall (V : Type 0) : Type 0 where
  pushes : V → QueueCall V
  pops : QueueCall V
  drains : ℕ → QueueCall V

module _ {V : Type 0} where
  abbrev listed : Option V → List V
  listed none = []
  listed (some v) = v ∷ []

  abbrev accepted : V → Bool → List V
  accepted v true = v ∷ []
  accepted v false = []

  -- The queue after a call, the values that it took in, and those that it gave out.
  pub call : BoundedQueue V → QueueCall V → BoundedQueue V × List V × List V
  unfolding try_push try_pop drain
  call q (pushes v) = ((try_push q v).0, accepted v (try_push q v).1, [])
  call q pops = ((try_pop q).0, [], listed (try_pop q).1)
  call q (drains n) = ((drain q n).0, [], (drain q n).1)

  pub run : BoundedQueue V → List (QueueCall V) → BoundedQueue V × List V × List V
  unfolding call
  run q [] = (q, [], [])
  run q (c ∷ calls) =
      let (p, came, left) = call q c in
      let (r, came', left') = run p calls in (r, came ++ came', left ++ left')

  abbrev Balanced : BoundedQueue V → BoundedQueue V × List V × List V → Type 0
  Balanced q (r, came, left) =
      (left ++ r.queue ≡ q.queue ++ came)
      × (r.capacity ≡ q.capacity)
      × (length q.queue ≤ q.capacity → length r.queue ≤ r.capacity)

  pop-Balanced :
      (q : BoundedQueue V) (vs : List V)
      → q.queue ≡ vs
      → Balanced q ((pop_of q vs).0, [], listed (pop_of q vs).1)
  pop-Balanced q [] e = (sym (append-nil q.queue), refl, λ h. h)
  pop-Balanced q (v ∷ vs) e =
      (sym e ∙ sym (append-nil q.queue), refl, λ h. omega (arith, ap length e))

  call-Balanced : (q : BoundedQueue V) (c : QueueCall V) → Balanced q (call q c)
  unfolding call try_push try_pop drain
  call-Balanced q (pushes v) = elim (Bool-cases (leb q.capacity (length q.queue))) [
    | inl full ↦ rw full (sym (append-nil q.queue), refl, λ h. h)
    | inr room ↦ rw room (refl, refl, λ h. ground (arith, room, length-append q.queue (v ∷ [])))
  ]
  call-Balanced q pops = pop-Balanced q q.queue refl
  call-Balanced q (drains n) = (
    take-append-drop (min n (length q.queue)) q.queue ∙ sym (append-nil q.queue),
    refl,
    λ h. omega (arith, length-drop (min n (length q.queue)) q.queue),
  )

  run-Balanced : (q : BoundedQueue V) (calls : List (QueueCall V)) → Balanced q (run q calls)
  unfolding run
  run-Balanced q [] = (sym (append-nil q.queue), refl, λ h. h)
  run-Balanced q (c ∷ calls) =
      let (p, came, left) = call q c in
      let (e, same, fits) = call-Balanced q c in
      let (f, same', fits') = run-Balanced p calls in
      (
        append_assoc left (run p calls).2 (run p calls).0.queue
            ∙ ap (λ l. left ++ l) f
            ∙ sym (append_assoc left p.queue (run p calls).1)
            ∙ ap (λ l. l ++ (run p calls).1) e
            ∙ append_assoc q.queue came (run p calls).1,
        same' ∙ same,
        λ h. fits' (fits h),
      )

  -- Whatever is called on a queue that is within its capacity, the values that left it and then those
  -- that it holds are, in this order, those that it held at first and then those that it accepted. The
  -- capacity stays, and the queue stays within it.
  pub run_in_order :
      (q : BoundedQueue V) (calls : List (QueueCall V))
      → length q.queue ≤ q.capacity
      → ((run q calls).2 ++ (run q calls).0.queue ≡ q.queue ++ (run q calls).1)
        × ((run q calls).0.capacity ≡ q.capacity)
        × (length (run q calls).0.queue ≤ (run q calls).0.capacity)
  run_in_order q calls h = let (order, same, fits) = run-Balanced q calls in (order, same, fits h)

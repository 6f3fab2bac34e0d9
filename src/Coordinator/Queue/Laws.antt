-- ===== src/Coordinator/Queue/Laws.antt =====
-- The queue's position stays in its list, and `Next` comes round to every batch.
use native.Mathlib.Nat.{mod-lt, mod-add-mod, mod-eq_of_lt, add-mod_right}
use han_hermez_node.Coordinator.Queue.{Queue, new_queue, get_elem?, next, remove, push}
use han_hermez_node.Prelude.{
  ℕ, zero, suc, ◌+◌, ◌-◌, ◌%◌, ◌<◌, ◌≡◌, refl, sym, ap, ◌∙◌, subst, ◌⊎◌, inl, inr, some, [], ◌∷◌,
  ◌++◌, arith, ltb, leb, ◌==◌, Bool-cases, length, take, drop, length-append,
}

module _ {ℓ} {A : Type ℓ} where
  -- The position is in the list, or both are empty.
  unfoldable pub IsValid : Queue A → Type 0
  IsValid q = (q.next < length q.list) ⊎ ((q.next ≡ 0) × (length q.list ≡ 0))

  -- The state after `n` calls of `Next`.
  unfoldable pub after : ℕ → Queue A → Queue A
  after zero q = q
  after (suc n) q = after n (next q).1

  next-IsValid : (q : Queue A) → IsValid q → IsValid (next q).1
  unfolding IsValid next
  next-IsValid q h = elim (Bool-cases (length q.list == 0)) [
    | inl e ↦ rw e h
    | inr n ↦ rw n (inl (mod-lt (q.next + 1) (ground (arith, n))))
  ]

  push-IsValid : (q : Queue A) (x : A) → IsValid q → IsValid (push q x)
  unfolding IsValid push
  push-IsValid q x (inl h) = inl (omega (arith, h, length-append q.list (x ∷ [])))
  push-IsValid q x (inr (e, n)) = inl (omega (arith, e, length-append q.list (x ∷ [])))

  remove-IsValid :
      (q : Queue A) (position : ℕ) (q' : Queue A) → remove q position ≡ some q' → IsValid q'
  unfolding IsValid remove
  remove-IsValid q position q' done =
      let list = take position q.list ++ drop (position + 1) q.list in
      elim (Bool-cases (ltb position (length q.list))) [
        | inr out ↦ ground (arith, done, out)
        | inl in_range ↦ elim (Bool-cases (length list == 0)) [
          | inl e ↦
              let is : record { list = list; next = 0 } ≡ q' = ground (arith, done, in_range, e) in
              subst IsValid is (inr (refl, ground (arith, e)))
          | inr n ↦
              let is : record { list = list; next = position % length list } ≡ q' =
                ground (arith, done, in_range, n) in
              subst IsValid is (inl (mod-lt position (ground (arith, n))))
        ]
      ]

  -- Where the position of a queue is in its list, or both are empty, and `Remove` does not panic: that
  -- is so after `Next`, after `Push` and after `Remove`, and for a new queue.
  queue-IsValid :
      (q : Queue A) (x : A) (position : ℕ) (q' : Queue A)
      → IsValid q
      → remove q position ≡ some q'
      → (IsValid (next q).1 × IsValid (push q x)) × (IsValid q' × IsValid (new_queue {A = A}))
  unfolding IsValid new_queue
  queue-IsValid q x position q' h done = (
    (next-IsValid q h, push-IsValid q x h),
    (remove-IsValid q position q' done, inr (refl, refl)),
  )

  -- The position after `n` calls, while the list stays.
  after-next :
      (n : ℕ) (q : Queue A)
      → q.next < length q.list
      → ((after n q).list ≡ q.list) × ((after n q).next ≡ (q.next + n) % length q.list)
  unfolding after next
  after-next zero q h =
      (refl, sym (mod-eq_of_lt {m = length q.list} h) ∙ ap (λ x. x % length q.list) (omega arith))
  after-next (suc n) q h =
      let stays : (next q).1 ≡ record q { next = (q.next + 1) % length q.list } =
        ground (arith, h) in
      let step : Queue A = record q { next = (q.next + 1) % length q.list } in
      let rest = after-next n step (mod-lt (q.next + 1) (omega (arith, h))) in
      let moved : ((q.next + 1) % length q.list + n) % length q.list
          ≡ (q.next + suc n) % length q.list =
        mod-add-mod (q.next + 1) (length q.list) n ∙ ap (λ x. x % length q.list) (omega arith) in
      rw (stays, after) (rest.0, rest.1 ∙ moved)

  next-at :
      (n : ℕ) (q : Queue A) (position : ℕ)
      → q.next < length q.list
      → position < length q.list
      → (q.next + n) % length q.list ≡ position
      → (next (after n q)).0 ≡ (position, get_elem? q.list position)
  unfolding next
  next-at n q position h in_range there =
      let state = after-next n q h in
      let at_position : (after n q).next ≡ position = state.1 ∙ there in
      rw (state.0, at_position) (ground (arith, in_range))

  -- From every valid queue that is not empty, each position of its list is the one that `Next` returns
  -- after fewer calls than there are batches, with the batch that is there.
  pub next-reaches :
      (q : Queue A) (position : ℕ)
      → IsValid q
      → position < length q.list
      → (n : ℕ) × ((n < length q.list)
          × ((next (after n q)).0 ≡ (position, get_elem? q.list position)))
  unfolding IsValid
  next-reaches q position (inr (e, n)) in_range =
      (0, (omega (arith, n, in_range), ground (arith, n, in_range)))
  next-reaches q position (inl h) in_range = elim (Bool-cases (leb q.next position)) [
    | inl ahead ↦
        let n = position - q.next in
        let there : (q.next + n) % length q.list ≡ position =
          ap (λ x. x % length q.list) (ground (arith, ahead))
          ∙ mod-eq_of_lt {m = length q.list} in_range in
        (n, (ground (arith, ahead, in_range), next-at n q position h in_range there))
    | inr behind ↦
        let n = position + length q.list - q.next in
        let there : (q.next + n) % length q.list ≡ position =
          ap (λ x. x % length q.list) (ground (arith, behind, h))
          ∙ (add-mod_right position (length q.list) ∙ mod-eq_of_lt {m = length q.list} in_range) in
        (n, (ground (arith, behind, in_range, h), next-at n q position h in_range there))
  ]

-- ===== src/Audit/Latest.antt =====
-- The buffer holds the latest records, in order.
use ctxward.Prelude.{
  ℕ, zero, suc, ◌-◌, ◌≤◌, ◌≡◌, refl, sym, ap, ◌∙◌, Bool-cases, inl, inr, Option, List, [], ◌∷◌,
  ◌++◌, length, drop, length-append, length-drop, max, leb, ltb, arith, if◌then◌else◌,
}
use mathlib.Core.List.{append_assoc, append-nil}
use mathlib.Core.Path.{subst}
use ctxward.Prelude.Slices.{drop-nil}
use ctxward.Audit.{
  AuditStore, pop_front, pop_excess, set_capacity, new, push, parsed_lines, read_recent,
}

module _ {ℓ} {R : Type ℓ} where
  -- The last `n` items of a list, or all of them.
  abbrev pub last_of : ℕ → List R → List R
  last_of n xs = drop (length xs - n) xs

  -- The buffer after these records are pushed, one after the other.
  abbrev pub push_all : List R → AuditStore R → AuditStore R
  push_all [] s = s
  push_all (r ∷ rs) s = push_all rs (push r s)

  drop-suc_append :
      (n : ℕ) (xs : List R) (r : R) → n ≤ length xs → drop n (xs ++ r ∷ []) ≡ drop n xs ++ r ∷ []
  drop-suc_append zero xs r h = refl
  drop-suc_append (suc n) [] r h = absurd (omega arith)
  drop-suc_append (suc n) (x ∷ xs) r h = drop-suc_append n xs r (omega arith)

  pop_front-drop : (n : ℕ) (xs : List R) → pop_front (drop n xs) ≡ drop (suc n) xs
  pop_front-drop zero [] = refl
  pop_front-drop zero (x ∷ xs) = refl
  pop_front-drop (suc n) [] = refl
  pop_front-drop (suc n) (x ∷ xs) = pop_front-drop n xs

  -- `push` on the records alone, below a capacity that is not 0.
  abbrev push_list : ℕ → List R → R → List R
  push_list capacity xs r = (if leb capacity (length xs) then pop_front xs else xs) ++ r ∷ []

  push-push_list :
      (r : R) (s : AuditStore R)
      → 1 ≤ s.capacity
      → push r s ≡ record { capacity = s.capacity; records = push_list s.capacity s.records r }
  unfolding push
  push-push_list r s h = ground arith

  -- One push onto the last records of a history gives the last records of the longer history.
  push_list-last_of :
      (capacity : ℕ) (history : List R) (r : R)
      → 1 ≤ capacity
      → push_list capacity (last_of capacity history) r ≡ last_of capacity (history ++ r ∷ [])
  push_list-last_of capacity history r h =
      let n = length history in
      let size = length-drop (n - capacity) history in
      let longer = length-append history (r ∷ []) in
      elim (Bool-cases (leb capacity (length (last_of capacity history)))) [
        | inl full ↦
            let next : length (history ++ r ∷ []) - capacity ≡ suc (n - capacity) = ground arith in
            rw (full, pop_front-drop (n - capacity) history, next)
              (sym (drop-suc_append (suc (n - capacity)) history r (ground arith)))
        | inr room ↦
            let next : length (history ++ r ∷ []) - capacity ≡ n - capacity = ground arith in
            rw (room, next) (sym (drop-suc_append (n - capacity) history r (omega arith)))
      ]

  push_all-last_of :
      (capacity : ℕ) (history rs : List R)
      → 1 ≤ capacity
      → push_all rs (record { capacity = capacity; records = last_of capacity history })
        ≡ record { capacity = capacity; records = last_of capacity (history ++ rs) }
  push_all-last_of capacity history [] h = rw (append-nil history)
  push_all-last_of capacity history (r ∷ rs) h =
      rw
        (
          push-push_list r (record { capacity = capacity; records = last_of capacity history }) h,
          push_list-last_of capacity history r h,
        )
        (push_all-last_of capacity (history ++ r ∷ []) rs h
          ∙ ap (λ l. record { capacity = capacity; records = last_of capacity l })
              (append_assoc history (r ∷ []) rs))

  -- A buffer made by `new` holds, after any pushes, the last records that were pushed, in the
  -- order of the pushes, as many as its capacity, which is 1 where 0 was asked for.
  pub new-push_all :
      (capacity : ℕ) (rs : List R)
      → push_all rs (new capacity)
        ≡ record { capacity = max capacity 1; records = last_of (max capacity 1) rs }
  unfolding new
  new-push_all capacity rs =
      let m = max capacity 1 in
      let none_yet : last_of m [] ≡ [] = drop-nil (0 - m) in
      subst
        (λ (l : List R).
          push_all rs (record { capacity = m; records = l })
          ≡ record { capacity = m; records = last_of m rs })
        none_yet (push_all-last_of m [] rs (omega arith))

  pop_excess-last_of : (n : ℕ) (xs : List R) → pop_excess n xs ≡ last_of n xs
  unfolding pop_excess
  pop_excess-last_of n [] = sym (drop-nil (0 - n))
  pop_excess-last_of n (x ∷ xs) = elim (Bool-cases (ltb n (length (x ∷ xs)))) [
    | inl more ↦
        let k : length (x ∷ xs) - n ≡ suc (length xs - n) = ground arith in
        rw (more, k) (pop_excess-last_of n xs)
    | inr fits ↦ let k : length (x ∷ xs) - n ≡ 0 = ground arith in rw (fits, k)
  ]

  -- A change of the capacity keeps the last records, as many as the new capacity, or one where it
  -- is 0; and the last records of a file are those of its lines that parse, up to the limit.
  pub set_capacity-read_recent :
      (capacity : ℕ) (s : AuditStore R) (lines : List (Option R)) (limit : ℕ)
      → ((set_capacity capacity s).records ≡ last_of (max capacity 1) s.records)
        × (read_recent lines limit ≡ last_of limit (parsed_lines lines))
  unfolding set_capacity read_recent
  set_capacity-read_recent capacity s lines limit =
      (pop_excess-last_of (max capacity 1) s.records, recent (parsed_lines lines))
    where
      recent :
          (parsed : List R)
          → (if ltb limit (length parsed) then drop (length parsed - limit) parsed else parsed)
            ≡ last_of limit parsed
      recent parsed = elim (Bool-cases (ltb limit (length parsed))) [
        | inl more ↦ rw more
        | inr fits ↦ let k : length parsed - limit ≡ 0 = ground arith in rw (fits, k)
      ]

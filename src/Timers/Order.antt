-- ===== src/Timers/Order.antt =====
-- The queue is in the order of its times, and first come, first served among equal ones.
use event_loop.Eloop.{Timeout}
use event_loop.Prelude.{
  Bool-cases, All, All-map_of, ◌≡◌, refl, ap, inl, inr, true, false, List, [], ◌∷◌, ◌++◌, arith,
}
use event_loop.Time.{OsTime, os_time_before}
use event_loop.Time.Order.{before_asymm, not-before_trans, before_le_trans}
use event_loop.Timers.{insert}

-- No node of the list is earlier than `time`.
abbrev pub NoneBefore : OsTime → List Timeout → Type 0
NoneBefore time xs = All (λ t. os_time_before t.time time ≡ false) xs

abbrev pub IsSorted : List Timeout → Type 0
IsSorted [] = Unit
IsSorted (t ∷ rest) = NoneBefore t.time rest × IsSorted rest

NoneBefore-trans :
    (a b : OsTime)
    → os_time_before b a ≡ false
    → (xs : List Timeout) → NoneBefore b xs
    → NoneBefore a xs
NoneBefore-trans a b h xs = All-map_of (λ t k. not-before_trans t.time b a k h) xs

NoneBefore-insert :
    (time : OsTime) (new : Timeout) (xs : List Timeout)
    → os_time_before new.time time ≡ false
    → NoneBefore time xs
    → NoneBefore time (insert new xs)
unfolding insert
NoneBefore-insert time new [] h k = (h, tt)
NoneBefore-insert time new (t ∷ xs) h k = ground (arith, NoneBefore-insert time new xs h k.1)

-- A new timeout keeps the queue in order.
pub insert-IsSorted : (new : Timeout) (xs : List Timeout) → IsSorted xs → IsSorted (insert new xs)
unfolding insert
insert-IsSorted new [] s = (tt, tt)
insert-IsSorted new (t ∷ xs) s = elim (Bool-cases (os_time_before new.time t.time)) [
  | inl earlier ↦
      let later = before_asymm new.time t.time earlier in
      rw earlier ((later, NoneBefore-trans new.time t.time later xs s.0), s)
  | inr other ↦ rw other (NoneBefore-insert t.time new xs other s.0, insert-IsSorted new xs s.1)
]

-- Every node of the list is later than `time`.
abbrev pub AllLater : OsTime → List Timeout → Type 0
AllLater time xs = All (λ t. os_time_before time t.time ≡ true) xs

later_of_sorted :
    (time : OsTime) (t : Timeout) (xs : List Timeout)
    → os_time_before time t.time ≡ true
    → NoneBefore t.time xs
    → AllLater time xs
later_of_sorted time t xs h = All-map_of (λ u k. before_le_trans time t.time u.time h k) xs

-- In a queue in order, a new timeout stands behind every node that is not later than it, and before
-- every later one; the others keep their order.
pub insert_lem :
    (new : Timeout) (xs : List Timeout)
    → IsSorted xs
    → (front back : List Timeout) × (xs ≡ front ++ back)
      × (insert new xs ≡ front ++ new ∷ back)
      × All (λ t. os_time_before new.time t.time ≡ false) front
      × AllLater new.time back
unfolding insert
insert_lem new [] s = ([], [], refl, refl, tt, tt)
insert_lem new (t ∷ xs) s = elim (Bool-cases (os_time_before new.time t.time)) [
  | inl earlier ↦
      ([], t ∷ xs, refl, rw earlier, tt, (earlier, later_of_sorted new.time t xs earlier s.0))
  | inr other ↦
      let (front, back, split, placed, before, after) = insert_lem new xs s.1 in
      (t ∷ front, back, ap (λ l. t ∷ l) split, rw (other, placed), (other, before), after)
]

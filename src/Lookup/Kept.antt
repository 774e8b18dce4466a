-- ===== src/Lookup/Kept.antt =====
-- The slot that gethostbyname_r_2_async of eloop/dns.c writes back.
use event_loop.Lookup.Host.{slot_at, set_slot_zero, chosen_slots}
use event_loop.Prelude.{◌==◌, Bool-cases, ℕ, ◌≡◌, refl, inl, inr, Option, List, [], ◌∷◌}

-- The slot that a choice has changed is written back.
pub set_slot-restores :
    (c : ℕ) (xs : List (Option (List ℕ))) → set_slot_zero (slot_at 0 xs) (chosen_slots c xs) ≡ xs
unfolding chosen_slots
set_slot-restores c [] = elim (Bool-cases (c == 2)) [ inl e ↦ rw e refl | inr e ↦ rw e refl ]
set_slot-restores c (x ∷ xs) = elim (Bool-cases (c == 2)) [ inl e ↦ rw e refl | inr e ↦ rw e refl ]

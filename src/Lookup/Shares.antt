-- ===== src/Lookup/Shares.antt =====
-- What overlapping lookups of gethostbyname_r_2_async in eloop/dns.c do to the table of servers.
use event_loop.Lookup.Host.{slot_at, set_slot_zero, chosen_slots}
use event_loop.Lookup.Overlap.{
  TableStep, chooses, restores, Shared, backup_of, drop_backup, table_step, table_steps,
}
use event_loop.Prelude.{
  ◌==◌, Bool-cases, Option-cases, All, ℕ, ◌≡◌, refl, sym, ap, ◌∙◌, inl, inr, false, Option, some,
  List, [], ◌∷◌,
}

-- A step that leaves the first slot alone.
abbrev pub Leaves : TableStep → Type 0
Leaves (chooses task c) = (c == 2) ≡ false
Leaves (restores task) = Unit

-- What the waiting tasks will write back is what stands in the first slot.
abbrev pub InStep : Option (List ℕ) → Shared → Type 0
InStep x s = All (λ b. b.1 ≡ x) s.backups × (slot_at 0 s.slots ≡ x)

set_slot-same : (xs : List (Option (List ℕ))) → set_slot_zero (slot_at 0 xs) xs ≡ xs
set_slot-same [] = refl
set_slot-same (x ∷ xs) = refl

backup_of-All :
    (x : Option (List ℕ)) (task : ℕ) (bs : List (ℕ × Option (List ℕ))) (b : Option (List ℕ))
    → All (λ k. k.1 ≡ x) bs
    → backup_of task bs ≡ some b
    → b ≡ x
unfolding backup_of
backup_of-All x task [] b h e = cc
backup_of-All x task ((k, c) ∷ bs) b h e = elim (Bool-cases (k == task)) [
  | inl f ↦ let g : some c ≡ some b = (rw f at e) in let g' : b ≡ c = cc in g' ∙ h.0
  | inr f ↦ backup_of-All x task bs b (h.1) (rw f at e)
]

drop_backup-All :
    (x : Option (List ℕ)) (task : ℕ) (bs : List (ℕ × Option (List ℕ)))
    → All (λ k. k.1 ≡ x) bs
    → All (λ k. k.1 ≡ x) (drop_backup task bs)
unfolding drop_backup
drop_backup-All x task [] h = tt
drop_backup-All x task ((k, c) ∷ bs) h = elim (Bool-cases (k == task)) [
  | inl f ↦ rw f (h.1)
  | inr f ↦ rw f (h.0, drop_backup-All x task bs (h.1))
]

table_step-slots :
    (v : Option (List ℕ)) (x : TableStep) (s : Shared)
    → Leaves x
    → InStep v s
    → (table_step x s).slots ≡ s.slots
unfolding table_step chosen_slots
table_step-slots v (chooses task c) s h k = rw h refl
table_step-slots v (restores task) s h k = elim (Option-cases (backup_of task s.backups)) [
  | inl e ↦ rw (e, table_step) refl
  | inr (b, e) ↦
      let same : b ≡ slot_at 0 s.slots = backup_of-All v task s.backups b (k.0) e ∙ sym (k.1) in
      rw (e, table_step) (rw same (set_slot-same s.slots))
]

table_step-backups :
    (v : Option (List ℕ)) (x : TableStep) (s : Shared)
    → InStep v s
    → All (λ b. b.1 ≡ v) (table_step x s).backups
unfolding table_step
table_step-backups v (chooses task c) s k = (k.1, k.0)
table_step-backups v (restores task) s k = elim (Option-cases (backup_of task s.backups)) [
  | inl e ↦ rw (e, table_step) (k.0)
  | inr (b, e) ↦ rw (e, table_step) (drop_backup-All v task s.backups (k.0))
]

-- However lookups overlap, the slots stay as they are, if none of those that start chooses the second
-- server, and what those that wait at the beginning will write back is what stands in the first slot.
pub table_steps-leave :
    (v : Option (List ℕ)) (xs : List TableStep) (s : Shared)
    → All Leaves xs
    → InStep v s
    → (table_steps xs s).slots ≡ s.slots
unfolding table_steps
table_steps-leave v [] s h k = refl
table_steps-leave v (x ∷ xs) s h k =
    let e = table_step-slots v x s (h.0) k in
    table_steps-leave v xs (table_step x s) (h.1)
      (table_step-backups v x s k, ap (slot_at 0) e ∙ k.1)
    ∙ e

-- A step of another task.
abbrev pub IsOtherTask : ℕ → TableStep → Type 0
IsOtherTask task (chooses k c) = (k == task) ≡ false
IsOtherTask task (restores k) = (k == task) ≡ false

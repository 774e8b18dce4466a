-- ===== src/Lookup/Overlap.antt =====
-- Lookups of gethostbyname_r_2_async in eloop/dns.c that overlap: each task changes the table of servers,
-- waits in its lookup, and writes back what it found in the first slot.
use event_loop.Lookup.Host.{slot_at, set_slot_zero, chosen_slots}
use event_loop.Prelude.{◌==◌, if◌then◌else◌, ℕ, Option, none, some, List, [], ◌∷◌}

-- What a task does to the table: it chooses its server, or it is done with its lookup.
pub data TableStep : Type 0 where
  chooses : (task serverchoice : ℕ) → TableStep
  restores : (task : ℕ) → TableStep

-- The slots, and the `__nameserverXX_backup` of each task that waits.
pub record Shared : Type 0 where
  pub slots : List (Option (List ℕ))
  pub backups : List (ℕ × Option (List ℕ))

unfoldable pub backup_of : ℕ → List (ℕ × Option (List ℕ)) → Option (Option (List ℕ))
backup_of task [] = none
backup_of task ((k, b) ∷ bs) = if k == task then some b else backup_of task bs

unfoldable pub drop_backup : ℕ → List (ℕ × Option (List ℕ)) → List (ℕ × Option (List ℕ))
drop_backup task [] = []
drop_backup task ((k, b) ∷ bs) = if k == task then bs else (k, b) ∷ drop_backup task bs

-- One step of a task; one that does not wait has nothing to write back.
unfoldable pub table_step : TableStep → Shared → Shared
unfolding backup_of drop_backup chosen_slots
table_step (chooses task serverchoice) s = record {
  slots = chosen_slots serverchoice s.slots;
  backups = (task, slot_at 0 s.slots) ∷ s.backups;
}
table_step (restores task) s = elim (backup_of task s.backups) [
  | none ↦ s
  | some b ↦ record { slots = set_slot_zero b s.slots; backups = drop_backup task s.backups }
]

-- The steps of several tasks one after the other.
unfoldable pub table_steps : List TableStep → Shared → Shared
unfolding table_step
table_steps [] s = s
table_steps (x ∷ xs) s = table_steps xs (table_step x s)

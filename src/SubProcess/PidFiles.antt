-- ===== src/SubProcess/PidFiles.antt =====
-- The life of a process that etc/unixProcess.c runs.
use event_loop.Prelude.{
  if◌then◌else◌, le→leb, Bool-cases, ==-gt, ℕ, ◌<◌, ◌≡◌, refl, inl, inr, Bool, true, false, Option,
  none, some, arith,
}
use event_loop.Prelude.Int.{ℤ, pos, negsuc, leb_ℤ, eqb_ℤ}
use event_loop.SubProcess.{
  PidFile, no_file, holds_pid, safe_fork, Child, executed, removed_before_write,
  removed_before_read, removed_after_read, file_at_read, file_at_end, run_sub_process,
  kill_sub_process,
}

-- The child leaves what its parent has written.
abbrev pub leaves_file : Child → Bool
leaves_file executed = true
leaves_file removed_before_write = true
leaves_file removed_before_read = false
leaves_file removed_after_read = false

-- The file behind a run of which fork is no error.
run_sub_process-file :
    (child : Child) (fork : ℤ) (status : Option ℤ) (file : PidFile)
    → eqb_ℤ fork (negsuc 0) ≡ false
    → (run_sub_process true child fork status file).1
      ≡ (if leaves_file child then holds_pid fork else no_file)
unfolding run_sub_process safe_fork file_at_read file_at_end
run_sub_process-file executed fork status file h = rw (h, run_sub_process) refl
run_sub_process-file removed_before_write fork status file h = rw (h, run_sub_process) refl
run_sub_process-file removed_before_read fork status file h = rw (h, run_sub_process) refl
run_sub_process-file removed_after_read fork status file h = rw (h, run_sub_process) refl

-- A number of a process is not negative.
nonnegative : (n : ℕ) → leb_ℤ (pos 0) (pos n) ≡ true
nonnegative n = le→leb _ _ (omega arith)

-- Where the file of a process can be written, whatever it held before, and fork does not fail: behind a
-- run a kill signals the process that has been forked, and no other, and removes the file, unless the
-- child could not execute its program and has removed the file behind its parent's write; then it signals
-- none. A child that has removed the file before that write is signalled though it has ended.
pub run_sub_process-kill :
    (child : Child) (pid : ℕ) (status : Option ℤ) (file : PidFile)
    → 0 < pid
    → kill_sub_process ((run_sub_process true child (pos pid) status file).1)
      ≡ (if leaves_file child then some (pos pid) else none, no_file)
unfolding kill_sub_process
run_sub_process-kill child pid status file h =
    rw (run_sub_process-file child (pos pid) status file (==-gt _ _ (omega arith)))
      (elim (Bool-cases (leaves_file child)) [
        | inl e ↦ rw (e, kill_sub_process) (rw (nonnegative pid, kill_sub_process) refl)
        | inr e ↦ rw e refl
      ])

-- ===== src/Tests/Processes.antt =====
-- Processes that are run and killed.
use event_loop.Prelude.{◌≡◌, refl, true, none, some, [], ◌∷◌, arith}
use event_loop.Prelude.Int.{pos}
use event_loop.SubProcess.{
  argv_ended, run_arguments, file_path, no_file, holds_pid, removed_before_write, run_sub_process,
  kill_sub_process,
}
use event_loop.SubProcess.Arguments.{run_arguments-join}
use event_loop.SubProcess.PidFiles.{run_sub_process-kill}

-- `ls  -l` with two spaces: the word between them is empty.
run_arguments-join_example :
    run_arguments (108 ∷ 115 ∷ 32 ∷ 32 ∷ 45 ∷ 108 ∷ [])
    ≡ argv_ended ((108 ∷ 115 ∷ []) ∷ [] ∷ (45 ∷ 108 ∷ []) ∷ [])
run_arguments-join_example =
    run_arguments-join (108 ∷ 115 ∷ []) ([] ∷ (45 ∷ 108 ∷ []) ∷ [])
      ((refl, (refl, tt)), (tt, ((refl, (refl, tt)), tt))) (omega arith)

file_path_test : file_path (47 ∷ 98 ∷ 47 ∷ 108 ∷ []) ≡ 108 ∷ []
unfolding file_path
file_path_test = refl

-- The process 42 has removed the file before its number is written.
run_sub_process-kill_example :
    kill_sub_process
      ((run_sub_process true removed_before_write (pos 42) none (holds_pid (pos 7))).1)
    ≡ (some (pos 42), no_file)
run_sub_process-kill_example =
    run_sub_process-kill removed_before_write 42 none (holds_pid (pos 7)) (omega arith)

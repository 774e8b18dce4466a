-- ===== src/SubProcess.antt =====
-- The processes that etc/unixProcess.c runs and the files with their numbers. The system's answers are
-- parameters: what fork returns, whether a file can be written, whether the program can be executed, and
-- what waitpid writes. A byte is a number. No process is forked twice (USE_DEFAULT_FORK is 0).
pub mod Arguments
pub mod PidFiles
use event_loop.LogFile.Lines.{text}
use event_loop.Prelude.{◌==◌, if◌then◌else◌, ℕ, zero, suc, Bool, Option, none, some, List, [], ◌∷◌}
use event_loop.Prelude.Int.{ℤ, pos, negsuc, leb_ℤ, eqb_ℤ}

-- strstr for a space: what stands before it, and what behind it, if there is one.
abbrev pub cut_at_space : List ℕ → List ℕ × Option (List ℕ)
cut_at_space [] = ([], none)
cut_at_space (c ∷ cs) =
    let (word, behind) = cut_at_space cs in if c == 32 then ([], some cs) else (c ∷ word, behind)

-- `argv`: with NULL behind the arguments, with NULL behind the array, or with no NULL at all.
pub data ArgVector : Type 0 where
  argv_ended : List (List ℕ) → ArgVector
  argv_ended_behind : List (List ℕ) → ArgVector
  argv_not_ended : List (List ℕ) → ArgVector

abbrev pub add_argument : List ℕ → ArgVector → ArgVector
add_argument w (argv_ended ws) = argv_ended (w ∷ ws)
add_argument w (argv_ended_behind ws) = argv_ended_behind (w ∷ ws)
add_argument w (argv_not_ended ws) = argv_not_ended (w ∷ ws)

-- The loop over the arguments, with the places that are left in the array.
unfoldable pub split_arguments : (places : ℕ) → (runStr : List ℕ) → ArgVector
split_arguments zero text = argv_not_ended []
split_arguments (suc places) text =
    let (word, behind) = cut_at_space text in
    elim behind [
      | none ↦ if places == 0 then argv_ended_behind (word ∷ []) else argv_ended (word ∷ [])
      | some rest ↦ add_argument word (split_arguments places rest)
    ]

-- `argv` has 256 places.
unfoldable pub run_arguments : (runStr : List ℕ) → ArgVector
unfolding split_arguments
run_arguments text = split_arguments 256 text

-- strrchr for a slash: what stands behind it.
abbrev pub behind_slash : List ℕ → Option (List ℕ)
behind_slash [] = none
behind_slash (c ∷ cs) = elim (behind_slash cs) [
  | some name ↦ some name
  | none ↦ if c == 47 then some cs else none
]

-- `filepath`: of a path that starts with a slash the last part.
unfoldable pub file_path : (program : List ℕ) → List ℕ
file_path [] = []
file_path (c ∷ cs) =
    if c == 47 then elim (behind_slash (c ∷ cs)) [ none ↦ c ∷ cs | some name ↦ name ] else c ∷ cs

-- The file with a process's number: it is not there, holds no number, or holds one.
pub data PidFile : Type 0 where
  no_file : PidFile
  no_number : PidFile
  holds_pid : ℤ → PidFile

-- `proc1pid`, if the file holds a number.
abbrev pub read_pid : PidFile → Option ℤ
read_pid no_file = none
read_pid no_number = none
read_pid (holds_pid pid) = some pid

-- safe_fork in the process that goes on: the file behind it.
unfoldable pub safe_fork : (writable : Bool) → (fork : ℤ) → PidFile → PidFile
safe_fork writable fork file = if writable then holds_pid fork else file

-- What becomes of the child: its program is executed, or it is not, and then the child removes the file,
-- which may be before its parent writes it, between that and the parent's reading, or later.
pub data Child : Type 0 where
  executed : Child
  removed_before_write : Child
  removed_before_read : Child
  removed_after_read : Child

-- The file as safe_fork finds it, as the parent reads it, and in the end.
unfoldable pub file_at_write : Child → PidFile → PidFile
file_at_write executed file = file
file_at_write removed_before_write file = no_file
file_at_write removed_before_read file = file
file_at_write removed_after_read file = file

unfoldable pub file_at_read : Child → PidFile → PidFile
file_at_read executed file = file
file_at_read removed_before_write file = file
file_at_read removed_before_read file = no_file
file_at_read removed_after_read file = file

unfoldable pub file_at_end : Child → PidFile → PidFile
file_at_end executed file = file
file_at_end removed_before_write file = file
file_at_end removed_before_read file = file
file_at_end removed_after_read file = no_file

-- What run_sub_process makes of the number in the file and of what waitpid writes.
abbrev pub run_result : Option ℤ → (status : Option ℤ) → ℤ
run_result (some pid) status = pos 0
run_result none none = negsuc 2
run_result none (some s) = pos 0

-- run_sub_process in the parent, for which fork does not return 0: the result, and the file behind all that
-- the child does. `status` is what waitpid writes, if it does.
unfoldable pub run_sub_process :
    (writable : Bool) → Child → (fork : ℤ) → (status : Option ℤ) → PidFile → ℤ × PidFile
unfolding safe_fork file_at_write file_at_read file_at_end
run_sub_process writable child fork status file =
    if eqb_ℤ fork (negsuc 0)
    then (negsuc 0, safe_fork writable fork file)
    else (let left = file_at_read child (safe_fork writable fork (file_at_write child file)) in
        (run_result (read_pid left) status, file_at_end child left))

-- kill_sub_process: the process that is killed, and the file.
unfoldable pub kill_sub_process : PidFile → Option ℤ × PidFile
kill_sub_process file = elim (read_pid file) [
  | none ↦ (none, no_file)
  | some pid ↦ (if leb_ℤ (pos 0) pid then some pid else none, no_file)
]

-- wait_sub_process and check_sub_process: the status; `waitpid` gives what it writes for a process.
abbrev pub status_of : (waitpid : ℤ → Option ℤ) → Option ℤ → ℤ
status_of waitpid none = negsuc 0
status_of waitpid (some pid) =
    if leb_ℤ (pos 0) pid then elim (waitpid pid) [ none ↦ negsuc 0 | some s ↦ s ] else negsuc 0

unfoldable pub wait_sub_process : (waitpid : ℤ → Option ℤ) → PidFile → ℤ × PidFile
wait_sub_process waitpid file = (status_of waitpid (read_pid file), no_file)

unfoldable pub check_sub_process : (waitpid : ℤ → Option ℤ) → PidFile → ℤ × PidFile
check_sub_process waitpid file = (status_of waitpid (read_pid file), file)

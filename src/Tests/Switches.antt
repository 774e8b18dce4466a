-- ===== src/Tests/Switches.antt =====
-- A task of the scheduler at a concrete state.
use event_loop.Prelude.{◌==◌, if◌then◌else◌, ◌+◌, ◌≡◌, refl, true, false, [], ◌∷◌, arith}
use event_loop.Prelude.Int.{pos}
use event_loop.TaskSwitch.{
  TaskCtx, ran, called, exit_called, freed, TaskState, waits, exits, TaskEnv, sched_task,
}
use event_loop.TaskSwitch.Exit.{sched_task-exits}

abbrev fresh_task : TaskCtx
fresh_task = record {
  callback = 0;
  callback_ctx = 0;
  completed = false;
  is_timeout = pos 0;
  alive = true;
}

-- The default context 1 runs; the task at 7 waits once and then exits.
abbrev tasks : TaskState
tasks = record {
  default_ctx = 1;
  cur_task_ctx = 1;
  on_exit = 40;
  ctx_of = λ i. fresh_task;
  io = 0;
  log = [];
}

abbrev runs : TaskEnv
runs = record { malloc = λ n. 100 + n; run = λ n ctx. if n == 0 then waits 30 0 else exits 0 0 }

two_rounds :
    (sched_task runs 7 (sched_task runs 7 tasks)).log
    ≡ freed 7 ∷ exit_called 40 7 ∷ ran 7 (pos 0) ∷ called 30 7 7 ∷ ran 7 (pos 0) ∷ []
unfolding sched_task
two_rounds = refl

sched_task-exits_example :
    let env = record runs { run = λ n ctx. exits 30 0 } in
    ((sched_task env 7 tasks).log ≡ freed 7 ∷ called 30 7 7 ∷ ran 7 (pos 0) ∷ [])
    × (((sched_task env 7 tasks).ctx_of 7).alive ≡ false)
    × ((sched_task env 7 tasks).cur_task_ctx ≡ 1)
sched_task-exits_example =
    sched_task-exits (record runs { run = λ n ctx. exits 30 0 }) 7 30 0 tasks refl refl refl
      (omega arith)

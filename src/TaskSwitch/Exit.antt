-- ===== src/TaskSwitch/Exit.antt =====
-- A task of eloop/context.c that exits.
use event_loop.Prelude.{
  ◌==◌, if◌then◌else◌, ==-gt, ℕ, ◌<◌, ◌≡◌, refl, ap, ◌∙◌, true, false, ◌∷◌, arith,
}
use event_loop.TaskSwitch.{
  ran, called, freed, TaskState, exits, TaskEnv, put_task, note, destroy_task, run_callback,
  if_completed_task, run_task, sched_task,
}
use event_loop.TaskSwitch.Switch.{exiting, callback_of, argument_of, sched_task_lem}

run_callback-called :
    (ctx : ℕ) (s : TaskState)
    → ((s.ctx_of ctx).callback == 0) ≡ false
    → run_callback ctx s
      ≡ note
          (called (s.ctx_of ctx).callback ctx (s.ctx_of ctx).callback_ctx)
          (put_task ctx (record (s.ctx_of ctx) { callback = 0; callback_ctx = 0 }) s)
unfolding run_callback
run_callback-called ctx s some_callback = rw (run_callback, some_callback) refl

-- What `ifCompleted_task` does with a task that left a callback.
if_completed_task-exits :
    (ctx : ℕ) (s : TaskState)
    → ((s.ctx_of ctx).callback == 0) ≡ false
    → (s.ctx_of ctx).completed ≡ true
    → ((if_completed_task ctx s).log
        ≡ freed ctx ∷ called (s.ctx_of ctx).callback ctx (s.ctx_of ctx).callback_ctx ∷ s.log)
      × (((if_completed_task ctx s).ctx_of ctx).alive ≡ false)
      × ((if_completed_task ctx s).cur_task_ctx ≡ s.cur_task_ctx)
unfolding if_completed_task destroy_task
if_completed_task-exits ctx s some_callback done =
    let e : (ctx == ctx) ≡ true = ground arith in
    rw (if_completed_task, run_callback-called ctx s some_callback, e, done, some_callback)
      (refl, rw e refl, refl)

-- A switch from the default context to a task that is not completed, and that exits with a callback,
-- runs the task, calls the callback with its argument, or the task where that is NULL, and frees the
-- task, each once and in this order. Control is back in the default context.
pub sched_task-exits :
    (env : TaskEnv) (ctx callback callback_ctx : ℕ) (s : TaskState)
    → s.cur_task_ctx ≡ s.default_ctx
    → (s.ctx_of ctx).completed ≡ false
    → env.run s.io ctx ≡ exits callback callback_ctx
    → 0 < callback
    → ((sched_task env ctx s).log
        ≡ freed ctx
          ∷ called callback ctx (if callback_ctx == 0 then ctx else callback_ctx)
          ∷ ran ctx (s.ctx_of ctx).is_timeout
          ∷ s.log)
      × (((sched_task env ctx s).ctx_of ctx).alive ≡ false)
      × ((sched_task env ctx s).cur_task_ctx ≡ s.default_ctx)
sched_task-exits env ctx callback callback_ctx s default' open' run some_callback =
    let s' = run_task env ctx (record s { cur_task_ctx = ctx }) in
    let (whole, back, log', cb, arg, done) = sched_task_lem env ctx s default' open' in
    let cb' : (s'.ctx_of ctx).callback ≡ callback = cb ∙ ap callback_of run in
    let arg' : (s'.ctx_of ctx).callback_ctx ≡ (if callback_ctx == 0 then ctx else callback_ctx) =
      arg ∙ ap (argument_of ctx) run in
    let some' : ((s'.ctx_of ctx).callback == 0) ≡ false =
      ap (λ c. c == 0) cb' ∙ ==-gt callback 0 some_callback in
    let ends = if_completed_task-exits ctx s' some' (done ∙ ap exiting run) in
    let events : freed ctx
          ∷ called (s'.ctx_of ctx).callback ctx (s'.ctx_of ctx).callback_ctx
          ∷ s'.log
        ≡ freed ctx
          ∷ called callback ctx (if callback_ctx == 0 then ctx else callback_ctx)
          ∷ ran ctx (s.ctx_of ctx).is_timeout
          ∷ s.log =
      ap (λ c. freed ctx ∷ called c ctx (s'.ctx_of ctx).callback_ctx ∷ s'.log) cb'
      ∙ ap (λ a. freed ctx ∷ called callback ctx a ∷ s'.log) arg'
      ∙ ap
          (λ l.
            freed ctx ∷ called callback ctx (if callback_ctx == 0 then ctx else callback_ctx) ∷ l)
          log' in
    (
      ap (λ (r : TaskState). r.log) whole ∙ ends.0 ∙ events,
      ap (λ (r : TaskState). (r.ctx_of ctx).alive) whole ∙ ends.1,
      ap (λ (r : TaskState). r.cur_task_ctx) whole ∙ ends.2 ∙ back,
    )

-- ===== src/TaskSwitch/Switch.antt =====
-- What one switch to a task and back does.
use event_loop.Prelude.{
  ◌==◌, if◌then◌else◌, ==_iff, ℕ, suc, ◌≡◌, refl, sym, ◌∙◌, ◌≢◌, Bool, true, false, ◌∷◌, arith,
}
use event_loop.TaskSwitch.{
  ran, TaskState, Yield, waits, exits, TaskEnv, if_completed_task, give_back, run_task, sched_task,
}

-- Whether the task exits, and the callback that it leaves.
abbrev pub exiting : Yield → Bool
exiting (waits callback callback_ctx) = false
exiting (exits callback callback_ctx) = true

abbrev pub callback_of : Yield → ℕ
callback_of (waits callback callback_ctx) = callback
callback_of (exits callback callback_ctx) = callback

abbrev pub argument_of : ℕ → Yield → ℕ
argument_of ctx (waits callback callback_ctx) = if callback_ctx == 0 then ctx else callback_ctx
argument_of ctx (exits callback callback_ctx) = if callback_ctx == 0 then ctx else callback_ctx

-- A round with its two halves apart.
sched_task-halves :
    (env : TaskEnv) (ctx : ℕ) (s : TaskState)
    → s.cur_task_ctx ≡ s.default_ctx
    → let s' = run_task env ctx (record s { cur_task_ctx = ctx }) in
      s'.cur_task_ctx ≡ s'.default_ctx → sched_task env ctx s ≡ if_completed_task ctx s'
unfolding sched_task
sched_task-halves env ctx s h k = rw ((==_iff _ _).1 h, (==_iff _ _).1 k) refl

give_back_lem :
    (ctx : ℕ) (y : Yield) (s : TaskState)
    → s.cur_task_ctx ≡ ctx
    → (s.ctx_of ctx).completed ≡ false
    → let s' = give_back ctx y s in
      (s'.cur_task_ctx ≡ s.default_ctx)
      × (s'.default_ctx ≡ s.default_ctx)
      × (s'.on_exit ≡ s.on_exit)
      × (s'.log ≡ s.log)
      × ((s'.ctx_of ctx).callback ≡ callback_of y)
      × ((s'.ctx_of ctx).callback_ctx ≡ argument_of ctx y)
      × ((s'.ctx_of ctx).completed ≡ exiting y)
unfolding give_back
give_back_lem ctx (waits callback callback_ctx) s h k = ground arith
give_back_lem ctx (exits callback callback_ctx) s h k = ground arith

-- A switch from the default context to a task that is not completed runs the task once, which gives
-- control back to the default context with its callback and with the mark that it is completed if
-- it exits; then `ifCompleted_task` looks at it.
pub sched_task_lem :
    (env : TaskEnv) (ctx : ℕ) (s : TaskState)
    → s.cur_task_ctx ≡ s.default_ctx
    → (s.ctx_of ctx).completed ≡ false
    → let y = env.run s.io ctx in
      let s' = run_task env ctx (record s { cur_task_ctx = ctx }) in
      (sched_task env ctx s ≡ if_completed_task ctx s')
      × (s'.cur_task_ctx ≡ s.default_ctx)
      × (s'.log ≡ ran ctx (s.ctx_of ctx).is_timeout ∷ s.log)
      × ((s'.ctx_of ctx).callback ≡ callback_of y)
      × ((s'.ctx_of ctx).callback_ctx ≡ argument_of ctx y)
      × ((s'.ctx_of ctx).completed ≡ exiting y)
unfolding run_task
sched_task_lem env ctx s default' open' =
    let before : TaskState = record s {
      cur_task_ctx = ctx;
      io = suc s.io;
      log = ran ctx (s.ctx_of ctx).is_timeout ∷ s.log;
    } in
    let r = give_back_lem ctx (env.run s.io ctx) before refl open' in
    (sched_task-halves env ctx s default' (r.0 ∙ sym r.1), r.0, r.3, r.4, r.5, r.6)

-- A switch that is not made from the default context does nothing.
pub sched_task-nested :
    (env : TaskEnv) (ctx : ℕ) (s : TaskState)
    → s.cur_task_ctx ≢ s.default_ctx
    → sched_task env ctx s ≡ s
unfolding sched_task
sched_task-nested env ctx s h = ground arith

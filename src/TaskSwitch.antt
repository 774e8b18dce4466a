-- ===== src/TaskSwitch.antt =====
-- The tasks of eloop/context.c (USE_LIBTASK_LITE): coroutines that the default context, where the
-- event loop runs, switches to, and that switch back to wait or to exit. Contexts and callbacks are
-- addresses, 0 is NULL. The stacks and the machine's switch are left out: what a task does from one
-- switch to the next is a parameter, and a callback is an entry of the log, which calls no function
-- of this file.
pub mod Switch
pub mod Exit
use event_loop.Prelude.{
  ◌==◌, if◌then◌else◌, ℕ, suc, ◌%◌, ◌^◌, Bool, true, false, not, ◌&&◌, List, ◌∷◌,
}
use event_loop.Prelude.Int.{ℤ, pos}
use event_loop.WebSock.{to_int}

-- `baseTaskCtx`; `alive` until the context is freed.
pub record TaskCtx : Type 0 where
  pub callback : ℕ
  pub callback_ctx : ℕ
  pub completed : Bool
  pub is_timeout : ℤ
  pub alive : Bool

-- What the default context and the tasks do, the newest first.
pub data TaskEvent : Type 0 where
  ran : (ctx : ℕ) → (is_timeout : ℤ) → TaskEvent
  called : (callback ctx callback_ctx : ℕ) → TaskEvent
  exit_called : (on_exit ctx : ℕ) → TaskEvent
  freed : (ctx : ℕ) → TaskEvent

-- `default_ctx`, `cur_task_ctx`, `g_OnExit_task_callback` and the contexts.
pub record TaskState : Type 0 where
  pub default_ctx : ℕ
  pub cur_task_ctx : ℕ
  pub on_exit : ℕ
  pub ctx_of : ℕ → TaskCtx
  pub io : ℕ
  pub log : List TaskEvent

-- How a task gives control back: by `callback_on_defaultloop` or by `exit_task`.
pub data Yield : Type 0 where
  waits : (callback callback_ctx : ℕ) → Yield
  exits : (callback callback_ctx : ℕ) → Yield

-- The outside world: the address of a new context, and the n-th run of a task.
pub record TaskEnv : Type 0 where
  pub malloc : ℕ → ℕ
  pub run : ℕ → (ctx : ℕ) → Yield

abbrev pub put_task : ℕ → TaskCtx → TaskState → TaskState
put_task ctx c s = record s { ctx_of = λ i. if i == ctx then c else s.ctx_of i }

abbrev pub note : TaskEvent → TaskState → TaskState
note event s = record s { log = event ∷ s.log }

-- `destroy_task`
unfoldable pub destroy_task : ℕ → TaskState → TaskState
destroy_task ctx s = note (freed ctx) (put_task ctx (record (s.ctx_of ctx) { alive = false }) s)

-- `make_task`: the context is cleared.
unfoldable pub make_task : TaskEnv → TaskState → ℕ × TaskState
make_task env s =
    let ctx = env.malloc s.io in
    (
      ctx,
      put_task ctx
          (record {
            callback = 0;
            callback_ctx = 0;
            completed = false;
            is_timeout = pos 0;
            alive = true;
          })
          (record s { io = suc s.io }),
    )

-- The callback of `ifCompleted_task`.
unfoldable pub run_callback : ℕ → TaskState → TaskState
run_callback ctx s =
    let c = s.ctx_of ctx in
    if c.callback == 0
    then s
    else note (called c.callback ctx c.callback_ctx)
        (put_task ctx (record c { callback = 0; callback_ctx = 0 }) s)

-- `ifCompleted_task`
unfoldable pub if_completed_task : ℕ → TaskState → TaskState
unfolding run_callback destroy_task
if_completed_task ctx s =
    let s' = run_callback ctx s in
    let had_none = (s.ctx_of ctx).callback == 0 in
    if (s'.ctx_of ctx).completed
    then destroy_task ctx
        (if had_none && not (s'.on_exit == 0) then note (exit_called s'.on_exit ctx) s' else s')
    else s'

-- `make_default_task`
unfoldable pub make_default_task : TaskEnv → TaskState → TaskState
unfolding make_task
make_default_task env s =
    let (ctx, s') = make_task env s in
    if s.default_ctx == 0 then record s' { default_ctx = ctx } else s

-- `destroy_default_task`
unfoldable pub destroy_default_task : TaskState → TaskState
unfolding destroy_task
destroy_default_task s =
    if s.default_ctx == 0 then s else record (destroy_task s.default_ctx s) { default_ctx = 0 }

-- `sched_defaultloop`, up to the switch.
unfoldable pub sched_defaultloop : ℕ → TaskState → TaskState
sched_defaultloop ctx s =
    if s.cur_task_ctx == ctx then record s { cur_task_ctx = s.default_ctx } else s

-- `callback_on_defaultloop`, up to the switch.
unfoldable pub callback_on_defaultloop : (ctx callback callback_ctx : ℕ) → TaskState → TaskState
unfolding sched_defaultloop
callback_on_defaultloop ctx callback callback_ctx s = sched_defaultloop ctx (
    put_task ctx
      (record (s.ctx_of ctx) {
        callback_ctx = if callback_ctx == 0 then ctx else callback_ctx;
        callback = callback;
      })
      s)

-- `exit_task`, up to the switch.
unfoldable pub exit_task : (ctx callback callback_ctx : ℕ) → TaskState → TaskState
unfolding callback_on_defaultloop
exit_task ctx callback callback_ctx s =
    callback_on_defaultloop ctx callback callback_ctx
      (put_task ctx (record (s.ctx_of ctx) { completed = true }) s)

-- How the task gives control back.
unfoldable pub give_back : ℕ → Yield → TaskState → TaskState
unfolding exit_task
give_back ctx (waits callback callback_ctx) s = callback_on_defaultloop ctx callback callback_ctx s
give_back ctx (exits callback callback_ctx) s = exit_task ctx callback callback_ctx s

-- `swapcontext` to the task, and what it does until it switches back.
unfoldable pub run_task : TaskEnv → ℕ → TaskState → TaskState
unfolding give_back
run_task env ctx s =
    give_back ctx (env.run s.io ctx)
      (note (ran ctx (s.ctx_of ctx).is_timeout) (record s { io = suc s.io }))

-- `sched_task`: `switch2task` from the default context.
unfoldable pub sched_task : TaskEnv → ℕ → TaskState → TaskState
unfolding run_task if_completed_task
sched_task env ctx s =
    let s' = run_task env ctx (record s { cur_task_ctx = ctx }) in
    if s.cur_task_ctx == s.default_ctx
    then (if s'.cur_task_ctx == s'.default_ctx then if_completed_task ctx s' else s')
    else s

-- `start_task`
unfoldable pub start_task : TaskEnv → ℕ → TaskState → TaskState
unfolding make_default_task sched_task
start_task env ctx s = sched_task env ctx (make_default_task env s)

-- `defaultloop_handler_for_task`, which the handlers of timeouts and sockets call; only 32 bits of
-- `user_data` are passed.
unfoldable pub defaultloop_handler_for_task :
    TaskEnv → (ctx user_data : ℕ) → Bool → TaskState → TaskState
unfolding make_default_task sched_task to_int
defaultloop_handler_for_task env ctx user_data timed_out s =
    let s' = make_default_task env s in
    let why =
      if timed_out
      then (if user_data == 0 then pos 1 else to_int (user_data % 2 ^ 32))
      else pos 0 in
    sched_task env ctx (put_task ctx (record (s'.ctx_of ctx) { is_timeout = why }) s')

-- `defaultloop_task_init`
unfoldable pub defaultloop_task_init : TaskEnv → (on_exit : ℕ) → TaskState → TaskState
unfolding make_default_task
defaultloop_task_init env on_exit s =
    let s' = make_default_task env s in
    if s'.default_ctx == 0 then s' else record s' {
      on_exit = on_exit;
      cur_task_ctx = if s'.cur_task_ctx == 0 then s'.default_ctx else s'.cur_task_ctx;
    }

-- `defaultloop_task_final`
unfoldable pub defaultloop_task_final : TaskState → TaskState
unfolding destroy_default_task
defaultloop_task_final s = record (destroy_default_task s) { on_exit = 0; cur_task_ctx = 0 }

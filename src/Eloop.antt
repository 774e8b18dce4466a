-- ===== src/Eloop.antt =====
-- The data of eloop/eloop.c: the structures of its tables, the global `eloop`, and the process
-- around it. Handlers and context pointers are numbers, 0 is NULL. An array is the list of its
-- used elements, so a count is a length; a linked list is the list of its nodes.
use event_loop.Prelude.{ℕ, suc, ◌-◌, ◌^◌, Bool, true, false, Option, none, some, List, []}
use event_loop.Prelude.Int.{ℤ, pos}
use event_loop.Time.{OsTime}

-- `struct eloop_sock`
pub record Sock : Type 0 where
  pub sock : ℤ
  pub eloop_data : ℕ
  pub user_data : ℕ
  pub handler : ℕ

-- `struct eloop_sock_table`: `none` while `table` is NULL, when `count` is 0.
pub record SockTable : Type 0 where
  pub table : Option (List Sock)
  pub changed : Bool

-- `struct eloop_timeout`, with the address of the node.
pub record Timeout : Type 0 where
  pub addr : ℕ
  pub time : OsTime
  pub eloop_data : ℕ
  pub user_data : ℕ
  pub is_wd_timeout : Bool
  pub handler : ℕ

-- `struct eloop_signal`
pub record Signal : Type 0 where
  pub sig : ℕ
  pub user_data : ℕ
  pub handler : ℕ
  pub signaled : ℕ

-- `eloop_event_type`; `unknown` is a value outside of the enumeration.
pub data EventType : Type 0 where
  read write exception unknown : EventType

-- The calls of the watchdog device, which other code implements.
pub data WdtCommand : Type 0 where
  start_wdt : (user_data secs usecs : ℕ) → WdtCommand
  restart_wdt : (user_data : ℕ) → OsTime → WdtCommand
  stop_wdt : (user_data : ℕ) → WdtCommand

-- A call of a handler.
pub data Invocation : Type 0 where
  sock_call : (handler : ℕ) → (sock : ℤ) → (eloop_data user_data : ℕ) → Invocation
  timeout_call : (handler eloop_data user_data : ℕ) → Invocation
  signal_call : (handler sig eloop_data user_data : ℕ) → Invocation

-- `struct eloop_data`, and behind it what belongs to the process: the monitor
-- `g_PendingMonitorType`, the seconds given to the last `alarm`, how many times the outside world was asked for something, the commands
-- sent to the watchdog, and the handlers called, each newest first.
-- `reader_table_changed` is never used.
pub record Eloop : Type 0 where
  pub user_data : ℕ
  pub max_sock : ℤ
  pub readers : SockTable
  pub writers : SockTable
  pub exceptions : SockTable
  pub timeout : List Timeout
  pub timeout_current_wdt : ℕ
  pub signals : List Signal
  pub signaled : ℕ
  pub pending_terminate : Bool
  pub terminate : Bool
  pub tmp_terminate : ℤ
  pub monitor : ℤ
  pub alarm : ℕ
  pub io : ℕ
  pub wdt : List WdtCommand
  pub trace : List Invocation

-- What a handler can do to the loop: the functions of eloop/eloop.h that change it but eloop_run, and
-- `deliver`, a signal that arrives while the handler runs. A handler that runs the loop again inside
-- itself is not modelled: such a run would clear `changed` of the tables that an outer dispatch goes over.
pub data Call : Type 0 where
  register_sock : Sock → EventType → Call
  unregister_sock : ℤ → EventType → Call
  register_timeout : (secs usecs handler eloop_data user_data : ℕ) → Call
  cancel_timeout : (handler eloop_data user_data : ℕ) → Call
  register_watchdog_timeout : (secs usecs eloop_data user_data : ℕ) → Call
  cancel_watchdog_timeout : (eloop_data user_data : ℕ) → Call
  register_signal : (sig handler user_data : ℕ) → Call
  deliver : (sig : ℕ) → Call
  request_terminate : Call
  set_tmp_terminate : ℤ → Call

-- One run of a handler: its calls in order, and whether it raises an exception after them.
pub record Behaviour : Type 0 where
  pub calls : List Call
  pub raises : Bool

-- What `pselect` returns, with `errno` and the descriptors that are ready, and the signals that
-- arrive while it waits.
pub record Selected : Type 0 where
  pub res : ℤ
  pub errno : ℕ
  pub readable : ℤ → Bool
  pub writable : ℤ → Bool
  pub exceptional : ℤ → Bool
  pub delivered : List ℕ

-- The outside world: its n-th answer to each question. `malloc` is an address, 0 for failure.
pub record Env : Type 0 where
  pub get_time : ℕ → OsTime
  pub times : ℕ → ℤ
  pub malloc : ℕ → ℕ
  pub realloc : ℕ → Bool
  pub pselect : ℕ → Selected
  pub callback : ℕ → Invocation → Behaviour
  pub wdt_handler : ℕ

abbrev pub empty_table : SockTable
empty_table = record { table = none; changed = false }

-- `eloop_init` clears the structure. It leaves the process as it is.
unfoldable pub eloop_init : ℕ → Eloop → Eloop
eloop_init user_data e = record e {
  user_data = user_data;
  max_sock = pos 0;
  readers = empty_table;
  writers = empty_table;
  exceptions = empty_table;
  timeout = [];
  timeout_current_wdt = 0;
  signals = [];
  signaled = 0;
  pending_terminate = false;
  terminate = false;
  tmp_terminate = pos 0;
}

-- `ELOOP_ALL_CTX`, the pointer -1.
abbrev pub all_ctx : ℕ
all_ctx = 2 ^ 64 - 1

abbrev pub entries : SockTable → List Sock
entries t = elim t.table [ none ↦ [] | some xs ↦ xs ]

-- What a call of another party reads: the count of such calls moves on.
abbrev pub next_io : Eloop → Eloop
next_io e = record e { io = suc e.io }

unfoldable pub eloop_terminate : Eloop → Eloop
eloop_terminate e = record e { terminate = true }

unfoldable pub eloop_tmp_terminate : ℤ → Eloop → Eloop
eloop_tmp_terminate v e = record e { tmp_terminate = v }

unfoldable pub eloop_terminated : Eloop → Bool
eloop_terminated e = e.terminate

unfoldable pub eloop_get_user_data : Eloop → ℕ
eloop_get_user_data e = e.user_data

-- ===== src/Tests.antt =====
-- Concrete states, runs of the definitions on them, and the theorems at concrete inputs.
pub mod Queue
pub mod Sockets
pub mod Clocks
pub mod Frames
pub mod Switches
pub mod Contexts
pub mod Logs
pub mod Texts
pub mod Streams
pub mod Ports
pub mod Inputs
pub mod Lookups
pub mod Copies
pub mod Processes
use event_loop.Eloop.{
  Sock, Timeout, write, start_wdt, Invocation, timeout_call, Eloop, register_sock, register_timeout,
  Behaviour, Env, empty_table,
}
use event_loop.Prelude.{◌==◌, if◌then◌else◌, ℕ, ◌+◌, ◌*◌, Bool, true, false, some, List, [], ◌∷◌}
use event_loop.Prelude.Int.{pos, negsuc, eqb_ℤ}
use event_loop.Time.{OsTime}

-- A time of the clock.
abbrev pub time_at : ℕ → ℕ → OsTime
time_at secs usecs = record { sec = pos secs; usec = pos usecs }

abbrev pub node : ℕ → OsTime → Bool → Timeout
node addr time wd = record {
  addr = addr;
  time = time;
  eloop_data = 1;
  user_data = addr;
  is_wd_timeout = wd;
  handler = 8;
}

-- The handler of the node time_at 10 registers a descriptor and a timeout; the others do nothing.
abbrev pub script : Invocation → Behaviour
script (timeout_call h d u) =
    if u == 10
    then record {
      calls =
          register_sock (record { sock = pos 5; eloop_data = 0; user_data = 0; handler = 7 }) write
          ∷ register_timeout 1 500000 8 1 99
          ∷ [];
      raises = false;
    }
    else record { calls = []; raises = false }
script inv = record { calls = []; raises = false }

-- The clock gains a second with each reading, and the fourth descriptor is ready to be read.
abbrev pub world : Env
world = record {
  get_time = λ n. time_at (100 + n) 0;
  times = λ n. pos (100 * n);
  malloc = λ n. 1000 + n;
  realloc = λ n. true;
  pselect = λ n. record {
    res = pos 1;
    errno = 0;
    readable = λ fd. eqb_ℤ fd (pos 4);
    writable = λ fd. false;
    exceptional = λ fd. false;
    delivered = [];
  };
  callback = λ n inv. script inv;
  wdt_handler = 9;
}

abbrev pub reader : Sock
reader = record { sock = pos 4; eloop_data = 1; user_data = 2; handler = 3 }

abbrev pub waiting : List Timeout
waiting =
    node 10 (time_at 101 0) false
    ∷ node 20 (time_at 102 0) true
    ∷ node 30 (time_at 103 5) false
    ∷ []

abbrev pub state : Eloop
state = record {
  user_data = 6;
  max_sock = pos 4;
  readers = record { table = some (reader ∷ []); changed = false };
  writers = empty_table;
  exceptions = empty_table;
  timeout = waiting;
  timeout_current_wdt = 20;
  signals = [];
  signaled = 0;
  pending_terminate = false;
  terminate = false;
  tmp_terminate = pos 0;
  monitor = negsuc 0;
  alarm = 0;
  io = 0;
  wdt = start_wdt 6 2 0 ∷ [];
  trace = [];
}

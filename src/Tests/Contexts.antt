-- ===== src/Tests/Contexts.antt =====
-- The timers of several contexts at concrete states.
use event_loop.NsTimers.{NsTimeout, NsContext, NsState, ns_stop, NsEnv}
use event_loop.NsTimers.Expire.{find_nearest_timeout_ms}
use event_loop.NsTimers.Nearest.{find_nearest_timeout_ms_lem}
use event_loop.Prelude.{ℕ, ◌+◌, ◌*◌, ◌≡◌, refl, true, false, [], ◌∷◌, arith}
use event_loop.Prelude.Int.{pos, ◌+ℤ◌, ◌-ℤ◌, ◌≤ℤ◌, ◌<ℤ◌}
use event_loop.Tests.{time_at}
use event_loop.Time.{os_time_before, os_time_sub}
use event_loop.Time.Arith.{micros}

abbrev ns_node : ℕ → NsTimeout
ns_node secs = record { time = time_at secs 250000; eloop_data = 1; user_data = 2; handler = 3 }

abbrev idle : NsContext
idle = record {
  user_data = 0;
  timeout = ns_node 103 ∷ [];
  signals = [];
  signaled = 0;
  pending_terminate = false;
  terminate = false;
  tmp_terminate = pos 0;
}

abbrev two_contexts : NsState
two_contexts = record { contexts = λ i. idle; alarm = 0; io = 0; trace = [] }

abbrev ns_world : NsEnv
ns_world = record {
  get_time = λ n. time_at (100 + n) 0;
  malloc = λ n. true;
  realloc = λ n. true;
  callback = λ n inv. ns_stop 1 ∷ [];
}

-- Two and a quarter seconds are left.
nearest_ms : find_nearest_timeout_ms (time_at 101 0) (ns_node 103 ∷ []) ≡ 2250
unfolding find_nearest_timeout_ms os_time_before os_time_sub ◌+ℤ◌ ◌-ℤ◌
nearest_ms = refl

find_nearest_timeout_ms_lem_example :
    let ms = find_nearest_timeout_ms (time_at 101 0) (ns_node 103 ∷ []) in
    (os_time_before (time_at 101 0) (time_at 103 250000) ≡ false → ms ≡ 0)
    × (os_time_before (time_at 101 0) (time_at 103 250000) ≡ true
        → (pos (ms * 1000) ≤ℤ (micros (time_at 103 250000) -ℤ micros (time_at 101 0)))
          × ((micros (time_at 103 250000) -ℤ micros (time_at 101 0)) <ℤ pos (ms * 1000 + 1000)))
unfolding ◌+ℤ◌
find_nearest_timeout_ms_lem_example =
    find_nearest_timeout_ms_lem (time_at 101 0) (ns_node 103) [] (omega arith, omega arith)
      (omega arith, omega arith) (omega arith)

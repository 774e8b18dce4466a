-- ===== src/Tests/Sockets.antt =====
-- The socket tables and whole runs on concrete states.
use event_loop.Eloop.{read, write}
use event_loop.Loop.{eloop_sock_table_dispatch, eloop_run}
use event_loop.Loop.Dispatch.{IsDone, dispatch-IsDone}
use event_loop.Loop.Invariant.{Ends}
use event_loop.Loop.Safety.{eloop_run-IsWatched, IsArmed, eloop_run-IsArmed}
use event_loop.Prelude.{◌≡◌, refl, true, [], arith}
use event_loop.Prelude.Int.{pos}
use event_loop.Socks.{eloop_register_sock, eloop_unregister_sock}
use event_loop.Socks.MaxSock.{IsWatched}
use event_loop.Socks.Tables.{has_sock, socks_of, unregister-register}
use event_loop.Tests.{world, reader, state}

state-IsWatched : IsWatched state
state-IsWatched = record { readers = (omega arith, tt); writers = tt; exceptions = tt }

eloop_run-IsWatched_example : Ends IsWatched (eloop_run world 64 3 2 state)
eloop_run-IsWatched_example = eloop_run-IsWatched world 64 3 2 state state-IsWatched

eloop_run-IsArmed_example : Ends IsArmed (eloop_run world 64 3 2 state)
eloop_run-IsArmed_example = eloop_run-IsArmed world 64 3 2 state refl

unregister-register_example :
    socks_of write
      (eloop_unregister_sock (pos 4) write (eloop_register_sock true reader write state).1)
    ≡ []
unfolding has_sock
unregister-register_example = unregister-register true reader write write state refl

dispatch-IsDone_example : IsDone (eloop_sock_table_dispatch world read (λ fd. true) state)
dispatch-IsDone_example = dispatch-IsDone world read (λ fd. true) state

-- The timeout of second 101 is served at second 105.

-- ===== src/Lib.antt =====
-- The event loop of eloop/: descriptors, timeouts and signals, whose handlers may call the loop's
-- functions, and the code that builds on it.
--
-- The loop's state is the global `eloop` of eloop/eloop.c, the record Eloop of Eloop.antt. A C
-- function that changes it is a function from Eloop to Eloop, with its result before the new state.
--   Prelude.antt   tests on numbers, lists measured by native numbers, signed integers
--   Time.antt      struct os_time of eloop/os.h and the time functions of eloop/eloop.c (CmpTime is
--                  cmp_time, GetTimeLeft is get_time_left, and so on)
--   Eloop.antt     the structures; `Env` is the outside world and `Call` what a handler can call
--   Socks.antt     eloop_register_sock, eloop_unregister_sock, max_sock and the descriptor sets
--   Timers.antt    the timeout queue, and OnRegisterWDT and OnUnregisterWDT for the watchdog
--   Clock.antt     eloop_timeUpdate, eloop_timeChange0 and eloop_timeChangeAuto
--   Signals.antt   the signal table and eloop_handle_signal
--   Handlers.antt  call_eloop_sock_handler and the others: monitor, handler, exception
--   Loop.antt      eloop_run, its pending signals, first timeout and dispatch
--   WebSock.antt   the frames of etc/ws_encode.c and etc/ws_decode.c
--   NsTimers.antt  the timers of ns_support/ns_timer_support.c, a reduced copy of the loop with
--                  several contexts
--   TaskSwitch.antt  the tasks of eloop/context.c
--   LogFile.antt   the search and the filter of logfile/lfs_read.c, and what it writes
--   LogServer.antt  the packets of etc/ns_log_server.c
--   Serial.antt    OnSerialReceive of etc/unix_UART.c
--   Stdin.antt     what etc/nc.c sends of its input
--   Lookup.antt    __dns_lookup_async and gethostbyname_r_2_async of eloop/dns.c
--   HostCopy.antt  dup_hostentry of eloop/dns.c
--   SubProcess.antt  the processes of etc/unixProcess.c
--   Exceptions.antt  the table of states and the signal handler of eloop/cexceptNew.c
--   Escapes.antt   etc/jss_encode.c and etc/jss_decode.c
-- The child modules hold the theorems; Tests.antt and its children apply them to concrete states.
--
-- The outside world is the parameter Env: the n-th answer to each question (the clock, times(),
-- malloc, realloc, pselect, and what a handler does), where n is the field `io` of the state. A
-- handler is a list of calls of the loop's own functions, and may raise an exception. None of them is
-- eloop_run: a handler that runs the loop again inside itself is outside of the model.
--
-- Bounds: `eloop_run` takes fuel for its rounds and for the passes over the signal table, which
-- handlers may make longer; the outcome is `stuck` where it runs out. A dispatch has fuel for every
-- entry of its table. The carry of microseconds has as many rounds as there are microseconds, one
-- for each million would do. Times are integers: signed overflow has no meaning in C. The ticks of
-- times() are converted to unsigned numbers of 32 or 64 bits. The search in a log file takes fuel for
-- the bytes up to its last line, the loop over a buffer for its bytes, jss_decode for its input. A
-- lookup of a name has fuel for every try of every name at every server. Lengths of frames and of
-- messages are numbers without a bound: what is said of frames is said of less than 2 ^ 31 bytes.
--
-- The model is of Linux with ELOOP_WATCHDOG_ADDON, HYWMON_SUPPORT_WDTMON, ELOOP_EXCEPTION_ADDON and
-- ELOOP_TIMECHANGE_AUTO. The tests of the thread's identity only print. Not modelled:
-- the call of the loop from a handler, the order in which the threads of etc/nc.c run,
-- eloop_destroy, which frees memory, eloop_wait_for_read_sock, eloop_run_with_mySocket, which is
-- compiled out, the codec of DNS messages and the other parts of eloop/dns.c that are uClibc's, the
-- handler of SIGALRM, which exits, and the installation of signal handlers; the service behind a
-- request to the log server, which calls JSON and file functions from outside of the repository;
-- the connections of etc/nc.c; opening and setting up a serial port. Of the repository's other
-- files, eloop/common.c, eloop/os_internal.c and the machine's context switch are other projects'
-- code or based on it; the other tools of etc/ are system calls. WEBSOCK_MSKLEN,
-- countNullCharOnStream, isTerminatedRequestStr, and jss_encode and jss_decode as
-- logfile/lfs_read.c calls them, come from outside of the repository and are parameters.
pub mod Prelude
pub mod Time
pub mod Eloop
pub mod Timers
pub mod Socks
pub mod Clock
pub mod Signals
pub mod Handlers
pub mod Loop
pub mod Tests
pub mod WebSock
pub mod NsTimers
pub mod TaskSwitch
pub mod LogFile
pub mod Escapes
pub mod Lookup
pub mod Exceptions
pub mod HostCopy
pub mod SubProcess
pub mod LogServer
pub mod Serial
pub mod Stdin

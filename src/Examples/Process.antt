-- ===== src/Examples/Process.antt =====
-- The process of the bridge where a signal comes after some rounds, each of which times out.
use somethingremotelygood.Base.{
  ℕ, ◌+◌, Bool, true, false, Option, none, some, [], ok, raised, socket_timeout, ◌≡◌, ◌⊎◌, refl,
  ◌==◌, ◌-◌, leb, arith,
}
use somethingremotelygood.Bridge.Process.{Unix, Server, start_unix_server, accept_loop}
use somethingremotelygood.Bridge.Process.Stop.{
  Unlinks, EndCalls, IsStopped, start_unix_server-IsStopped,
}
use somethingremotelygood.Bridge.Process.Ending.{SignalComes, accept_loop_ends}
use somethingremotelygood.Examples.Line.{line, bridge}

-- how many rounds there were, and whether the socket has its file
abbrev Machine : Type 0
Machine = ℕ × Bool

abbrev unix : (ℕ → Bool) → Unix line
unix signal = record {
  World = Machine;
  Client = Unit {0};
  path_exists = λ w. w.1;
  unlink = λ w. (ok tt, (w.0, false));
  make_server = λ w. (ok tt, w);
  reuse_address = λ w. (ok tt, w);
  bind = λ w. (ok tt, (w.0, true));
  listen = λ n w. (ok tt, w);
  set_timeout = λ n w. (ok tt, w);
  chmod = λ n w. (ok tt, w);
  accept = λ w. (raised socket_timeout, (w.0 + 1, w.1));
  set_client_timeout = λ c n w. (ok tt, w);
  start_thread = λ c w. (ok tt, w);
  close_server = λ w. (ok tt, w);
  handle_signals = λ w. (ok tt, w);
  signalled = λ w. signal w.0;
  meanwhile = λ w d. d;
}

abbrev server : (signal : ℕ → Bool) → ℕ → Server line (unix signal)
server signal n = record { bridge = bridge [] []; world = (n, true) }

abbrev exit : Option ℕ
exit = some 0

unix-Unlinks : (signal : ℕ → Bool) → Unlinks (unix signal)
unix-Unlinks signal = record { removes = λ w e. refl }

unix-EndCalls : (signal : ℕ → Bool) → EndCalls (unix signal)
unix-EndCalls signal = record { close_ends = λ d q. cc; unlink_ends = λ w q. cc }

abbrev at_three : ℕ → Bool
at_three n = n == 3

abbrev from_three : ℕ → Bool
from_three n = leb 3 n

abbrev never : ℕ → Bool
never n = false

ended : (start_unix_server 9 (server at_three 0)).0 ≡ ok (some 0)
unfolding start_unix_server
ended = refl

start_unix_server-IsStopped_example :
    ((exit ≡ none) ⊎ (exit ≡ some 0)) × IsStopped (start_unix_server 9 (server at_three 0)).1
unfolding start_unix_server
start_unix_server-IsStopped_example =
    start_unix_server-IsStopped (unix-Unlinks at_three) 9 (server at_three 0) exit refl

-- the signal comes in the round of number 3
unfoldable signal_comes : SignalComes (unix from_three)
signal_comes = record {
  due = λ w. 3 - w.0;
  comes = λ w e. ground arith;
  nears = λ w k le. omega arith;
  timeout_keeps = λ c n w. omega arith;
  thread_keeps = λ c w. omega arith;
  accept_ends = λ w e. cc;
  timeout_ends = λ c n w e. cc;
  thread_ends = λ c w e. cc;
}

accept_loop_ends_example : (left : Option ℕ) × ((accept_loop 5 (server from_three 0)).0 ≡ ok left)
unfolding signal_comes
accept_loop_ends_example =
    accept_loop_ends signal_comes (unix-EndCalls from_three) 3 (server from_three 0) refl
      (omega arith)

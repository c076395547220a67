-- ===== src/Tests/Listener.antt =====
-- Runs of the listener.
use ieee_2030_5_core_go.Prelude.{◌+◌, ◌≤◌, true, false, List, [], ◌∷◌, ◌++◌, some, ◌≡◌, refl}
use ieee_2030_5_core_go.Tls.Listener.{
  in_handshake, accepting, stopped, AcceptError, err_closed, handed_out, Listener, Event,
  inner_accepts, inner_fails, handshake_succeeds, handshake_fails, takes_conn, answers_conn, cancel,
  close_inner, wait_returns, without_worker, without_conn, after_inner_error, wrap_ccm_listener,
  apply, run,
}
use ieee_2030_5_core_go.Tls.Listener.Accounts.{times, given_to, Accounted, run-Accounted}
use ieee_2030_5_core_go.Tls.Listener.Closing.{run-given_to, run-close_returned}
use ieee_2030_5_core_go.Tls.Listener.Drains.{work, goroutine_steps, run-work}
use ieee_2030_5_core_go.Tls.Listener.Returns.{Returns, close-Returns}

-- One connection is handed out, one is in its handshake, and Close is called.
abbrev busy_events : List Event
busy_events =
    inner_accepts 1 true
    ∷ inner_accepts 2 true
    ∷ handshake_succeeds 1
    ∷ takes_conn 1
    ∷ answers_conn 1
    ∷ cancel
    ∷ close_inner
    ∷ []

abbrev busy : Listener
busy = record {
  cancelled = true;
  inner_closed = true;
  loop = accepting;
  workers = record { conn = 2; phase = in_handshake } ∷ [];
  held = [];
  answers = handed_out 1 ∷ [];
  closed_conns = [];
  logged = [];
  accepted = 2 ∷ 1 ∷ [];
  close_returned = false;
}

abbrev closing_events : List Event
closing_events = inner_fails 7 false ∷ handshake_fails 2 ∷ wait_returns ∷ []

abbrev at_rest : Listener
at_rest = record {
  cancelled = true;
  inner_closed = true;
  loop = stopped err_closed;
  workers = [];
  held = [];
  answers = handed_out 1 ∷ [];
  closed_conns = 2 ∷ [];
  logged = [];
  accepted = 2 ∷ 1 ∷ [];
  close_returned = true;
}

busy-run : run busy_events wrap_ccm_listener ≡ some busy
unfolding run apply without_worker without_conn wrap_ccm_listener
busy-run = refl

closing-run : run closing_events busy ≡ some at_rest
unfolding run apply without_worker after_inner_error
closing-run = refl

whole-run : run (busy_events ++ closing_events) wrap_ccm_listener ≡ some at_rest
unfolding run apply without_worker without_conn after_inner_error wrap_ccm_listener
whole-run = refl

run-Accounted_example : Accounted busy
run-Accounted_example = run-Accounted busy_events busy-run

run-given_to_example : given_to at_rest.answers ≡ given_to busy.answers
run-given_to_example = run-given_to closing_events busy refl closing-run

run-close_returned_example :
    (at_rest.workers ≡ [])
    × ((e : AcceptError) × (at_rest.loop ≡ stopped e))
    × (times 2 at_rest.held + times 2 (given_to at_rest.answers) + times 2 at_rest.closed_conns
        ≡ times 2 at_rest.accepted)
run-close_returned_example = run-close_returned (busy_events ++ closing_events) 2 whole-run refl

run-work_example : goroutine_steps closing_events + work at_rest ≤ work busy
run-work_example = run-work closing_events busy refl refl closing-run

close-Returns_example : Returns busy
close-Returns_example = close-Returns busy refl refl

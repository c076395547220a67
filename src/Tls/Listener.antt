-- ===== src/Tls/Listener.antt =====
-- pkg/sep2tls/ccmserver.go: the listener that `WrapCCMListenerWithTimeout` returns, as steps on what
-- its goroutines share. A connection is a number. A goroutine of `handshake` is a worker that is in
-- the handshake, or offers its connection on `conns`; a receive from the channel is the step of both
-- sides. What the wrapped listener and the handshake of gotls return is in the events; a listener that
-- is closed accepts no further connection, as net.Listener documents.
pub mod Steps
pub mod Accounts
pub mod Closing
pub mod Drains
pub mod Returns
use ieee_2030_5_core_go.Prelude.{
  ℕ, zero, suc, ◌*◌, ◌^◌, Bool, true, false, not, ◌&&◌, ◌||◌, List, [], ◌∷◌, Option, none, some,
  ◌==◌, if◌then◌else◌,
}
use ieee_2030_5_core_go.Prelude.Int.{ℤ, pos, negsuc, ltb_ℤ}

-- In nanoseconds.
abbrev pub default_ccm_handshake_timeout : ℤ
default_ccm_handshake_timeout = pos 10000000000

-- The bound that `WrapCCMListenerWithTimeout` chooses; `none` is its error.
unfoldable pub handshake_timeout : ℤ → Option ℤ
handshake_timeout (pos zero) = some default_ccm_handshake_timeout
handshake_timeout (pos (suc n)) = some (pos (suc n))
handshake_timeout (negsuc n) = none

pub data Phase : Type 0 where
  in_handshake offering : Phase

pub record Worker : Type 0 where
  pub conn : ℕ
  pub phase : Phase

-- `net.ErrClosed`, or an error of the wrapped listener.
pub data AcceptError : Type 0 where
  err_closed : AcceptError
  inner_error : ℕ → AcceptError

-- `acceptLoop`: in the wrapped `Accept`, offering a temporary error on `errs`, or returned.
pub data Loop : Type 0 where
  accepting : Loop
  offering_error : ℕ → Loop
  stopped : AcceptError → Loop

-- What `Accept` returned.
pub data Answer : Type 0 where
  handed_out : ℕ → Answer
  temporary_error : ℕ → Answer
  accept_error : AcceptError → Answer

pub record Listener : Type 0 where
  -- `ctx` is cancelled.
  pub cancelled : Bool
  pub inner_closed : Bool
  pub loop : Loop
  pub workers : List Worker
  -- Received in `Accept`, which has not looked at `done` yet.
  pub held : List ℕ
  pub answers : List Answer
  pub closed_conns : List ℕ
  -- The connections whose handshake errors were logged.
  pub logged : List ℕ
  -- Every connection that the wrapped listener accepted.
  pub accepted : List ℕ
  pub close_returned : Bool

unfoldable pub wrap_ccm_listener : Listener
wrap_ccm_listener = record {
  cancelled = false;
  inner_closed = false;
  loop = accepting;
  workers = [];
  held = [];
  answers = [];
  closed_conns = [];
  logged = [];
  accepted = [];
  close_returned = false;
}

pub data Event : Type 0 where
  -- The wrapped `Accept` returns a connection, of gotls or not, or an error, temporary or not.
  inner_accepts : ℕ → Bool → Event
  inner_fails : ℕ → Bool → Event
  -- The loop's select on `ctx.Done()`.
  loop_cancelled : Event
  handshake_succeeds handshake_fails : ℕ → Event
  -- A worker's select on `ctx.Done()`.
  worker_cancelled : ℕ → Event
  -- The cases of the select in `Accept`, and its second select.
  takes_conn answers_conn : ℕ → Event
  takes_error takes_stopped : Event
  -- The lines of `Close`.
  cancel close_inner wait_returns : Event

same_phase : Phase → Phase → Bool
same_phase in_handshake in_handshake = true
same_phase in_handshake offering = false
same_phase offering in_handshake = false
same_phase offering offering = true

pub keep {ℓ} : {A : Type ℓ} → A → Option (List A) → Option (List A)
keep a none = none
keep a (some rest) = some (a ∷ rest)

-- The other workers, if one has this connection in this phase.
unfoldable pub without_worker : ℕ → Phase → List Worker → Option (List Worker)
unfolding same_phase keep
without_worker c p [] = none
without_worker c p (w ∷ ws) =
    let rest = keep w (without_worker c p ws) in
    if (w.conn == c) && same_phase w.phase p then some ws else rest

unfoldable pub without_conn : ℕ → List ℕ → Option (List ℕ)
unfolding keep
without_conn c [] = none
without_conn c (d ∷ ds) = let rest = keep d (without_conn c ds) in if d == c then some ds else rest

pub if_some {ℓ κ} : {A : Type ℓ} {B : Type κ} → Option A → (A → B) → Option B
if_some none f = none
if_some (some a) f = some (f a)

-- `acceptLoop` on an error of the wrapped listener.
unfoldable pub after_inner_error : Bool → ℕ → Bool → Loop
after_inner_error cancelled e temporary =
    if not cancelled && temporary
    then offering_error e
    else stopped (if cancelled then err_closed else inner_error e)

pub is_accepting : Loop → Bool
is_accepting accepting = true
is_accepting (offering_error e) = false
is_accepting (stopped e) = false

-- `acceptLoop` on `ctx.Done()`, and `Accept` on the two other channels.
on_loop_cancelled : Loop → Listener → Option Listener
on_loop_cancelled (offering_error e) l =
    if l.cancelled then some (record l { loop = stopped err_closed }) else none
on_loop_cancelled accepting l = none
on_loop_cancelled (stopped e) l = none

on_takes_error : Loop → Listener → Option Listener
on_takes_error (offering_error e) l =
    some (record l { loop = accepting; answers = temporary_error e ∷ l.answers })
on_takes_error accepting l = none
on_takes_error (stopped e) l = none

on_takes_stopped : Loop → Listener → Option Listener
on_takes_stopped (stopped e) l = some (record l { answers = accept_error e ∷ l.answers })
on_takes_stopped accepting l = none
on_takes_stopped (offering_error e) l = none

-- `wg.Wait` returns when the loop and every worker has.
on_wait : Loop → List Worker → Listener → Option Listener
on_wait (stopped e) [] l =
    if l.cancelled && l.inner_closed then some (record l { close_returned = true }) else none
on_wait (stopped e) (w ∷ ws) l = none
on_wait accepting ws l = none
on_wait (offering_error e) ws l = none

-- A step, if it can be taken.
unfoldable pub apply : Event → Listener → Option Listener
unfolding if_some is_accepting on_loop_cancelled on_takes_error on_takes_stopped on_wait
apply (inner_accepts c is_gotls) l =
    if is_accepting l.loop && not l.inner_closed
    then some (record l {
      workers =
          record { conn = c; phase = if is_gotls then in_handshake else offering } ∷ l.workers;
      accepted = c ∷ l.accepted;
    })
    else none
apply (inner_fails e temporary) l =
    if is_accepting l.loop
    then some (record l { loop = after_inner_error l.cancelled e temporary })
    else none
apply loop_cancelled l = on_loop_cancelled l.loop l
apply (handshake_succeeds c) l =
    if_some (without_worker c in_handshake l.workers)
      λ ws. record l { workers = record { conn = c; phase = offering } ∷ ws }
apply (handshake_fails c) l = if_some (without_worker c in_handshake l.workers) λ ws. record l {
  workers = ws;
  closed_conns = c ∷ l.closed_conns;
  logged = if l.cancelled then l.logged else c ∷ l.logged;
}
apply (worker_cancelled c) l =
    if l.cancelled
    then if_some (without_worker c offering l.workers)
        (λ ws. record l { workers = ws; closed_conns = c ∷ l.closed_conns })
    else none
apply (takes_conn c) l =
    if_some (without_worker c offering l.workers) λ ws. record l { workers = ws; held = c ∷ l.held }
apply (answers_conn c) l = if_some (without_conn c l.held) λ rest.
    if l.cancelled
    then record l {
      held = rest;
      closed_conns = c ∷ l.closed_conns;
      answers = accept_error err_closed ∷ l.answers;
    }
    else record l { held = rest; answers = handed_out c ∷ l.answers }
apply takes_error l = on_takes_error l.loop l
apply takes_stopped l = on_takes_stopped l.loop l
apply cancel l = some (record l { cancelled = true })
apply close_inner l = if l.cancelled then some (record l { inner_closed = true }) else none
apply wait_returns l = on_wait l.loop l.workers l

run_step : Option Listener → (Listener → Option Listener) → Option Listener
run_step none next = none
run_step (some l) next = next l

-- A run of steps.
unfoldable pub run : List Event → Listener → Option Listener
unfolding run_step
run [] l = some l
run (e ∷ events) l = run_step (apply e l) λ l'. run events l'

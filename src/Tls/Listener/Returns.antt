-- ===== src/Tls/Listener/Returns.antt =====
-- Runs to the return of `Close` of pkg/sep2tls/ccmserver.go.
use ieee_2030_5_core_go.Prelude.{
  Bool, true, false, ◌&&◌, List, [], ◌∷◌, Option, none, some, if◌then◌else◌, ==_iff, ◌≡◌, refl,
  subst, ◌∙◌, All,
}
use ieee_2030_5_core_go.Tls.Listener.{
  Phase, in_handshake, offering, Worker, AcceptError, err_closed, Loop, accepting, offering_error,
  stopped, Listener, Event, inner_accepts, inner_fails, loop_cancelled, handshake_succeeds,
  handshake_fails, worker_cancelled, takes_conn, answers_conn, takes_error, takes_stopped, cancel,
  close_inner, wait_returns, same_phase, without_worker, after_inner_error, is_accepting,
  on_loop_cancelled, on_wait, if_some, apply, run_step, run,
}

-- The steps that the accept loop, the handshake goroutines and Close take by themselves: the
-- wrapped Accept fails, a handshake ends, a select takes `ctx.Done()`, or `wg.Wait` returns. The
-- steps of a caller of Accept are not among them.
abbrev pub OwnStep : Event → Type 0
OwnStep (inner_fails e temporary) = Unit
OwnStep loop_cancelled = Unit
OwnStep (handshake_succeeds c) = Unit
OwnStep (handshake_fails c) = Unit
OwnStep (worker_cancelled c) = Unit
OwnStep wait_returns = Unit
OwnStep (inner_accepts c is_gotls) = ⊥
OwnStep (takes_conn c) = ⊥
OwnStep (answers_conn c) = ⊥
OwnStep takes_error = ⊥
OwnStep takes_stopped = ⊥
OwnStep cancel = ⊥
OwnStep close_inner = ⊥

-- A run of such steps alone that ends with the return of Close.
abbrev pub Returns : Listener → Type 0
Returns l =
    (events : List Event) × (l' : Listener) × All OwnStep events
    × (run events l ≡ some l')
    × (l'.close_returned ≡ true)

first_step :
    (e : Event) (l l₁ : Listener) → OwnStep e → apply e l ≡ some l₁ → Returns l₁ → Returns l
unfolding run run_step
first_step e l l₁ own q (events, l', all, r, ended) = (e ∷ events, l', (own, all), rw q r, ended)

same_phase_refl : (p : Phase) → same_phase p p ≡ true
unfolding same_phase
same_phase_refl in_handshake = refl
same_phase_refl offering = refl

without-first :
    (w : Worker) (p : Phase) (ws : List Worker)
    → w.phase ≡ p
    → without_worker w.conn p (w ∷ ws) ≡ some ws
unfolding without_worker
without-first w p ws q =
    let same : same_phase w.phase p ≡ true =
      subst (λ x. same_phase w.phase x ≡ true) q (same_phase_refl w.phase) in
    rw ((==_iff w.conn w.conn).1 refl, same) refl

guarded : {A : Type 0} (b : Bool) (o : Option A) → b ≡ true → (if b then o else none) ≡ o
guarded true o e = refl
guarded false o e = absurd (cc e)

waits_for :
    (loop : Loop) (ws : List Worker) (l : Listener) (x : AcceptError)
    → loop ≡ stopped x
    → ws ≡ []
    → l.cancelled ≡ true
    → l.inner_closed ≡ true
    → on_wait loop ws l ≡ some (record l { close_returned = true })
unfolding on_wait
waits_for loop ws l x stop at now shut =
    rw (stop, at)
      (guarded (l.cancelled && l.inner_closed) _ (and_true l.cancelled l.inner_closed now shut))
  where
    and_true : (a b : Bool) → a ≡ true → b ≡ true → (a && b) ≡ true
    and_true true b e f = f
    and_true false b e f = e

-- A step of a goroutine that leaves Close going on.
Ends : Listener → Loop → List Worker → Type 0
Ends l loop ws =
    (e : Event) × (l₁ : Listener) × OwnStep e
    × (apply e l ≡ some l₁)
    × (l₁.workers ≡ ws)
    × (l₁.loop ≡ loop)
    × (l₁.cancelled ≡ true)
    × (l₁.inner_closed ≡ true)

-- The first worker ends its handshake, or its offer.
worker_leaves :
    (w : Worker) (ws : List Worker) (l : Listener) (p : Phase)
    → l.workers ≡ w ∷ ws
    → w.phase ≡ p
    → l.cancelled ≡ true
    → l.inner_closed ≡ true
    → Ends l l.loop ws
unfolding apply if_some Ends
worker_leaves w ws l in_handshake at q now shut =
    let gone : without_worker w.conn in_handshake (w ∷ ws) ≡ some ws =
      without-first w in_handshake ws q in
    let l₁ : Listener = record l {
      workers = ws;
      closed_conns = w.conn ∷ l.closed_conns;
      logged = if l.cancelled then l.logged else w.conn ∷ l.logged;
    } in
    (handshake_fails w.conn, l₁, tt, rw (at, gone) refl, refl, refl, now, shut)
worker_leaves w ws l offering at q now shut =
    let gone : without_worker w.conn offering (w ∷ ws) ≡ some ws = without-first w offering ws q in
    let l₁ : Listener = record l { workers = ws; closed_conns = w.conn ∷ l.closed_conns } in
    (
      worker_cancelled w.conn,
      l₁,
      tt,
      guarded l.cancelled _ now ∙ rw (at, gone) refl,
      refl,
      refl,
      now,
      shut,
    )

workers_end :
    (ws : List Worker) (l : Listener) (x : AcceptError)
    → l.workers ≡ ws
    → l.loop ≡ stopped x
    → l.cancelled ≡ true
    → l.inner_closed ≡ true
    → Returns l
unfolding apply on_wait run run_step Ends
workers_end [] l x at stop now shut =
    let ended : Listener = record l { close_returned = true } in
    first_step wait_returns l ended tt (waits_for l.loop l.workers l x stop at now shut)
      ([], ended, tt, refl, refl)
workers_end (w ∷ ws) l x at stop now shut =
    let (e, l₁, own, q, at₁, loop₁, now₁, shut₁) = worker_leaves w ws l w.phase at refl now shut in
    first_step e l l₁ own q (workers_end ws l₁ x at₁ (loop₁ ∙ stop) now₁ shut₁)

-- The loop's next error stops it.
loop_ends_now :
    (l : Listener) (loop : Loop)
    → l.loop ≡ loop
    → l.cancelled ≡ true
    → l.inner_closed ≡ true
    → Returns l
unfolding apply on_loop_cancelled is_accepting after_inner_error
loop_ends_now l (stopped x) q now shut = workers_end l.workers l x refl q now shut
loop_ends_now l accepting q now shut =
    let l₁ : Listener = record l { loop = after_inner_error l.cancelled 0 false } in
    let accepts_now : is_accepting l.loop ≡ true = rw q refl in
    let stop : l₁.loop ≡ stopped err_closed = rw now refl in
    first_step (inner_fails 0 false) l l₁ tt (guarded (is_accepting l.loop) _ accepts_now)
      (workers_end l.workers l₁ err_closed refl stop now shut)
loop_ends_now l (offering_error x) q now shut =
    let l₁ : Listener = record l { loop = stopped err_closed } in
    first_step loop_cancelled l l₁ tt (cancelled_loop l.loop q)
      (workers_end l.workers l₁ err_closed refl refl now shut)
  where
    cancelled_loop :
        (loop : Loop)
        → loop ≡ offering_error x
        → on_loop_cancelled loop l ≡ some (record l { loop = stopped err_closed })
    cancelled_loop loop e = rw e (guarded l.cancelled _ now)

-- Once Close has cancelled and has closed the wrapped listener, whatever the goroutines were doing:
-- with no call of Accept in between, the steps of the accept loop, the handshake goroutines and
-- Close alone can be taken until Close returns.
pub close-Returns : (l : Listener) → l.cancelled ≡ true → l.inner_closed ≡ true → Returns l
close-Returns l now shut = loop_ends_now l l.loop refl now shut

-- ===== src/Tls/Listener/Drains.antt =====
-- The work that is left to the goroutines of pkg/sep2tls/ccmserver.go once `Close` was called.
use ieee_2030_5_core_go.Prelude.{
  ℕ, ◌+◌, ◌≤◌, Bool, true, false, ◌&&◌, List, [], ◌∷◌, some, ◌==◌, ◌≡◌, inl, inr, refl, arith,
  Bool-cases, Option-cases,
}
use ieee_2030_5_core_go.Tls.Listener.{
  Phase, in_handshake, offering, Worker, Loop, accepting, offering_error, stopped, Listener, Event,
  inner_accepts, inner_fails, loop_cancelled, handshake_succeeds, handshake_fails, worker_cancelled,
  takes_conn, answers_conn, takes_error, takes_stopped, cancel, close_inner, wait_returns,
  same_phase, without_worker, after_inner_error, apply, run_step, run,
}
use ieee_2030_5_core_go.Tls.Listener.Steps.{
  Steps, accepts, fails, loop_ends, succeeds, handshake_ends, worker_ends, takes, refuses,
  hands_out, reports, reports_stopped, cancels, closes, returns, both, apply-Steps,
}
use ieee_2030_5_core_go.Tls.Listener.Accounts.{keep-some}

worker_work : Phase → ℕ
worker_work in_handshake = 2
worker_work offering = 1

workers_work : List Worker → ℕ
unfolding worker_work
workers_work [] = 0
workers_work (w ∷ ws) = worker_work w.phase + workers_work ws

loop_work : Loop → ℕ
loop_work accepting = 1
loop_work (offering_error e) = 2
loop_work (stopped e) = 0

-- A bound on the steps that are left to the goroutines.
pub work : Listener → ℕ
unfolding loop_work workers_work
work l = loop_work l.loop + workers_work l.workers

-- The steps of a goroutine of the listener.
pub goroutine : Event → ℕ
goroutine (inner_accepts c is_gotls) = 1
goroutine (inner_fails e temporary) = 1
goroutine loop_cancelled = 1
goroutine (handshake_succeeds c) = 1
goroutine (handshake_fails c) = 1
goroutine (worker_cancelled c) = 1
goroutine (takes_conn c) = 1
goroutine (answers_conn c) = 0
goroutine takes_error = 1
goroutine takes_stopped = 0
goroutine cancel = 0
goroutine close_inner = 0
goroutine wait_returns = 0

pub goroutine_steps : List Event → ℕ
unfolding goroutine
goroutine_steps [] = 0
goroutine_steps (e ∷ events) = goroutine e + goroutine_steps events

phase_of : (a b : Phase) → same_phase a b ≡ true → a ≡ b
unfolding same_phase
phase_of in_handshake in_handshake e = refl
phase_of in_handshake offering e = absurd (cc e)
phase_of offering in_handshake e = absurd (cc e)
phase_of offering offering e = refl

work-without_worker :
    (c : ℕ) (p : Phase) (ws : List Worker) {rest : List Worker}
    → without_worker c p ws ≡ some rest
    → workers_work ws ≡ worker_work p + workers_work rest
unfolding without_worker workers_work
work-without_worker c p [] e = absurd (cc e)
work-without_worker c p (w ∷ ws) {rest = rest} e =
    elim (Bool-cases ((w.conn == c) && same_phase w.phase p)) [
      | inl q ↦
          let same = phase_of w.phase p (both (w.conn == c) (same_phase w.phase p) q).1 in
          let r : ws ≡ rest = cc (rw q at e) in rw (same, r) refl
      | inr q ↦
          let (others, r, s) = keep-some w (without_worker c p ws) (rw q at e) in
          rw s (omega (arith, work-without_worker c p ws r))
    ]

-- Cancelled and closed, the loop stops at the next error.
stops :
    (e : ℕ) (temporary : Bool) (b : Bool)
    → b ≡ true
    → loop_work (after_inner_error b e temporary) ≡ 0
unfolding after_inner_error loop_work
stops e temporary true q = refl
stops e temporary false q = absurd (cc q)

Closed : Listener → Type 0
Closed l = (l.cancelled ≡ true) × (l.inner_closed ≡ true)

Steps-work :
    (e : Event) {l l' : Listener}
    → Steps e l l'
    → Closed l
    → Closed l' × (goroutine e + work l' ≤ work l)
unfolding Closed work goroutine worker_work workers_work loop_work
Steps-work _ (accepts c is_gotls q r) (now, shut) = absurd (cc (r, shut))
Steps-work _ (fails {l = l} x temporary q) h =
    (h, rw q (omega (arith, stops x temporary l.cancelled h.0)))
Steps-work _ (loop_ends x q r) h = (h, rw q (omega arith))
Steps-work _ (succeeds {l = l} c ws q) h =
    (h, omega (arith, work-without_worker c in_handshake l.workers q))
Steps-work _ (handshake_ends {l = l} c ws q) h =
    (h, omega (arith, work-without_worker c in_handshake l.workers q))
Steps-work _ (worker_ends {l = l} c ws now q) h =
    (h, omega (arith, work-without_worker c offering l.workers q))
Steps-work _ (takes {l = l} c ws q) h =
    (h, omega (arith, work-without_worker c offering l.workers q))
Steps-work _ (refuses c rest now q) h = (h, omega arith)
Steps-work _ (hands_out c rest now q) h = (h, omega arith)
Steps-work _ (reports x q) h = (h, rw q (omega arith))
Steps-work _ (reports_stopped x q) h = (h, omega arith)
Steps-work _ cancels (now, shut) = ((refl, shut), omega arith)
Steps-work _ (closes q) (now, shut) = ((now, refl), omega arith)
Steps-work _ (returns x q r s t) h = (h, omega arith)

-- Once Close has cancelled and has closed the wrapped listener: in any run, the goroutines take no
-- more steps than the work that was left.
pub run-work :
    (events : List Event) (l : Listener) {l' : Listener}
    → l.cancelled ≡ true
    → l.inner_closed ≡ true
    → run events l ≡ some l'
    → goroutine_steps events + work l' ≤ work l
unfolding run run_step goroutine_steps Closed
run-work [] l {l' = l'} now shut q = let r : l ≡ l' = cc q in rw r (omega arith)
run-work (e ∷ events) l now shut q = elim (Option-cases (apply e l)) [
  | inl gone ↦ absurd (cc (rw gone at q))
  | inr (l₁, there) ↦
      let ((now₁, shut₁), less) = Steps-work e (apply-Steps e l there) (now, shut) in
      omega (arith, less, run-work events l₁ now₁ shut₁ (rw there at q))
]

-- ===== src/Tls/Listener/Closing.antt =====
-- The listener of pkg/sep2tls/ccmserver.go once `Close` was called.
use ieee_2030_5_core_go.Prelude.{ℕ, ◌+◌, true, List, [], ◌∷◌, some, ◌≡◌, refl, arith}
use ieee_2030_5_core_go.Tls.Listener.{
  Phase, in_handshake, offering, Worker, AcceptError, err_closed, stopped, Listener,
  wrap_ccm_listener, Event, without_worker, run,
}
use ieee_2030_5_core_go.Tls.Listener.Steps.{
  Steps, accepts, fails, loop_ends, succeeds, handshake_ends, worker_ends, takes, refuses,
  hands_out, reports, reports_stopped, cancels, closes, returns,
}
use ieee_2030_5_core_go.Tls.Listener.Accounts.{given_to, run-keeps, times, run-Accounted}

-- Cancelled, with these connections handed out.
HandedOut : List ℕ → Listener → Type 0
HandedOut cs l = (l.cancelled ≡ true) × (given_to l.answers ≡ cs)

Steps-HandedOut :
    (cs : List ℕ) (e : Event) {l l' : Listener} → Steps e l l' → HandedOut cs l → HandedOut cs l'
unfolding HandedOut
Steps-HandedOut cs _ (accepts c is_gotls q r) h = h
Steps-HandedOut cs _ (fails x temporary q) h = h
Steps-HandedOut cs _ (loop_ends x q r) h = h
Steps-HandedOut cs _ (succeeds c ws q) h = h
Steps-HandedOut cs _ (handshake_ends c ws q) h = h
Steps-HandedOut cs _ (worker_ends c ws now q) h = h
Steps-HandedOut cs _ (takes c ws q) h = h
Steps-HandedOut cs _ (refuses c rest now q) h = h
Steps-HandedOut cs _ (hands_out c rest now q) (yet, h) = absurd (cc (now, yet))
Steps-HandedOut cs _ (reports x q) h = h
Steps-HandedOut cs _ (reports_stopped x q) h = h
Steps-HandedOut cs _ cancels (yet, h) = (refl, h)
Steps-HandedOut cs _ (closes q) h = h
Steps-HandedOut cs _ (returns x q r s t) h = h

-- From the moment that Close has cancelled, whatever steps follow, Accept hands out no further
-- connection, also none that it had received before.
pub run-given_to :
    (events : List Event) (l : Listener) {l' : Listener}
    → l.cancelled ≡ true
    → run events l ≡ some l'
    → given_to l'.answers ≡ given_to l.answers
unfolding HandedOut
run-given_to events l now q =
    (run-keeps (HandedOut (given_to l.answers)) events l
      (λ e a b s h. Steps-HandedOut (given_to l.answers) e s h) q (now, refl)).1

-- Where Close has returned, the loop and the workers have too.
Quiet : Listener → Type 0
Quiet l = (l.workers ≡ []) × ((e : AcceptError) × (l.loop ≡ stopped e))

ReturnsQuiet : Listener → Type 0
unfolding Quiet
ReturnsQuiet l = l.close_returned ≡ true → Quiet l

no_worker :
    (c : ℕ) (p : Phase) (ws rest : List Worker) → ws ≡ [] → without_worker c p ws ≡ some rest → ⊥
unfolding without_worker
no_worker c p [] rest e q = cc q
no_worker c p (w ∷ ws) rest e q = cc e

Steps-ReturnsQuiet : (e : Event) {l l' : Listener} → Steps e l l' → ReturnsQuiet l → ReturnsQuiet l'
unfolding ReturnsQuiet Quiet
Steps-ReturnsQuiet _ (accepts c is_gotls q r) h =
    λ d. let (none_left, (x, at)) = h d in absurd (cc (q, at))
Steps-ReturnsQuiet _ (fails x temporary q) h =
    λ d. let (none_left, (y, at)) = h d in absurd (cc (q, at))
Steps-ReturnsQuiet _ (loop_ends x q r) h = λ d. ((h d).0, (err_closed, refl))
Steps-ReturnsQuiet _ (succeeds {l = l} c ws q) h =
    λ d. absurd (no_worker c in_handshake l.workers ws (h d).0 q)
Steps-ReturnsQuiet _ (handshake_ends {l = l} c ws q) h =
    λ d. absurd (no_worker c in_handshake l.workers ws (h d).0 q)
Steps-ReturnsQuiet _ (worker_ends {l = l} c ws now q) h =
    λ d. absurd (no_worker c offering l.workers ws (h d).0 q)
Steps-ReturnsQuiet _ (takes {l = l} c ws q) h =
    λ d. absurd (no_worker c offering l.workers ws (h d).0 q)
Steps-ReturnsQuiet _ (refuses c rest now q) h = h
Steps-ReturnsQuiet _ (hands_out c rest now q) h = h
Steps-ReturnsQuiet _ (reports x q) h = λ d. let (none_left, (y, at)) = h d in absurd (cc (q, at))
Steps-ReturnsQuiet _ (reports_stopped x q) h = h
Steps-ReturnsQuiet _ cancels h = h
Steps-ReturnsQuiet _ (closes q) h = h
Steps-ReturnsQuiet _ (returns x q r s t) h = λ d. (r, (x, q))

-- After any run of a new listener in which Close has returned: the accept loop and every handshake
-- goroutine have returned, and every connection that was accepted was handed out, or closed, or is
-- held by a call of Accept that has not answered.
pub run-close_returned :
    (events : List Event) {l : Listener} (d : ℕ)
    → run events wrap_ccm_listener ≡ some l
    → l.close_returned ≡ true
    → (l.workers ≡ [])
      × ((e : AcceptError) × (l.loop ≡ stopped e))
      × (times d l.held + times d (given_to l.answers) + times d l.closed_conns
          ≡ times d l.accepted)
unfolding ReturnsQuiet Quiet wrap_ccm_listener
run-close_returned events {l = l} d q ended =
    let (none_left, (x, at)) =
      run-keeps ReturnsQuiet events wrap_ccm_listener (λ e a b s h. Steps-ReturnsQuiet e s h) q
        (λ never. absurd (cc never)) ended in
    let h = run-Accounted events q d in (none_left, (x, at), omega (arith, rw none_left at h))

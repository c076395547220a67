-- ===== src/Tls/Listener/Accounts.antt =====
-- Where the connections of the listener of pkg/sep2tls/ccmserver.go are.
use ieee_2030_5_core_go.Prelude.{
  ℕ, ◌+◌, ◌&&◌, List, [], ◌∷◌, Option, none, some, ◌==◌, if◌then◌else◌, ==_iff, ◌≡◌, inl, inr, refl,
  sym, subst, arith, Bool-cases, Option-cases,
}
use ieee_2030_5_core_go.Tls.Listener.{
  Phase, in_handshake, offering, Worker, Answer, handed_out, temporary_error, accept_error,
  Listener, wrap_ccm_listener, Event, same_phase, keep, without_worker, without_conn, apply,
  run_step, run,
}
use ieee_2030_5_core_go.Tls.Listener.Steps.{
  Steps, accepts, fails, loop_ends, succeeds, handshake_ends, worker_ends, takes, refuses,
  hands_out, reports, reports_stopped, cancels, closes, returns, both, apply-Steps,
}

pub one : ℕ → ℕ → ℕ
one d c = if d == c then 1 else 0

-- How often a connection occurs.
abbrev pub times : ℕ → List ℕ → ℕ
times d [] = 0
times d (c ∷ cs) = one d c + times d cs

abbrev pub conns : List Worker → List ℕ
conns [] = []
conns (w ∷ ws) = w.conn ∷ conns ws

abbrev pub given_to : List Answer → List ℕ
given_to [] = []
given_to (handed_out c ∷ answers) = c ∷ given_to answers
given_to (temporary_error e ∷ answers) = given_to answers
given_to (accept_error e ∷ answers) = given_to answers

-- Every accepted connection is in one place: with a worker, held by a call of Accept, handed out, or
-- closed.
abbrev pub Accounted : Listener → Type 0
Accounted l =
    (d : ℕ)
    → times d (conns l.workers)
        + times d l.held
        + times d (given_to l.answers)
        + times d l.closed_conns
      ≡ times d l.accepted

pub keep-some :
    {A : Type 0} (a : A) (o : Option (List A)) {r : List A}
    → keep a o ≡ some r
    → (rest : List A) × (o ≡ some rest) × (r ≡ a ∷ rest)
unfolding keep
keep-some a none e = absurd (cc e)
keep-some a (some rest) {r = r} e = let q : a ∷ rest ≡ r = cc e in (rest, refl, sym q)

times-without_worker :
    (c : ℕ) (p : Phase) (ws : List Worker) {rest : List Worker} (d : ℕ)
    → without_worker c p ws ≡ some rest
    → times d (conns ws) ≡ one d c + times d (conns rest)
unfolding without_worker
times-without_worker c p [] d e = absurd (cc e)
times-without_worker c p (w ∷ ws) {rest = rest} d e =
    elim (Bool-cases ((w.conn == c) && same_phase w.phase p)) [
      | inl q ↦
          let same : w.conn ≡ c =
            (==_iff w.conn c).0 (both (w.conn == c) (same_phase w.phase p) q).0 in
          let r : ws ≡ rest = cc (rw q at e) in rw (same, r) refl
      | inr q ↦
          let (others, r, s) = keep-some w (without_worker c p ws) (rw q at e) in
          rw s (omega (arith, times-without_worker c p ws d r))
    ]

times-without_conn :
    (c : ℕ) (cs : List ℕ) {rest : List ℕ} (d : ℕ)
    → without_conn c cs ≡ some rest
    → times d cs ≡ one d c + times d rest
unfolding without_conn
times-without_conn c [] d e = absurd (cc e)
times-without_conn c (x ∷ cs) {rest = rest} d e = elim (Bool-cases (x == c)) [
  | inl q ↦
      let same : x ≡ c = (==_iff x c).0 q in let r : cs ≡ rest = cc (rw q at e) in rw (same, r) refl
  | inr q ↦
      let (others, r, s) = keep-some x (without_conn c cs) (rw q at e) in
      rw s (omega (arith, times-without_conn c cs d r))
]

-- A step keeps the accounts.
Steps-Accounted : (e : Event) {l l' : Listener} → Steps e l l' → Accounted l → Accounted l'
Steps-Accounted _ (accepts c is_gotls q r) h = λ d. omega (arith, h d)
Steps-Accounted _ (fails x temporary q) h = h
Steps-Accounted _ (loop_ends x q r) h = h
Steps-Accounted _ (succeeds {l = l} c ws q) h =
    λ d. omega (arith, h d, times-without_worker c in_handshake l.workers d q)
Steps-Accounted _ (handshake_ends {l = l} c ws q) h =
    λ d. omega (arith, h d, times-without_worker c in_handshake l.workers d q)
Steps-Accounted _ (worker_ends {l = l} c ws now q) h =
    λ d. omega (arith, h d, times-without_worker c offering l.workers d q)
Steps-Accounted _ (takes {l = l} c ws q) h =
    λ d. omega (arith, h d, times-without_worker c offering l.workers d q)
Steps-Accounted _ (refuses {l = l} c rest now q) h =
    λ d. omega (arith, h d, times-without_conn c l.held d q)
Steps-Accounted _ (hands_out {l = l} c rest now q) h =
    λ d. omega (arith, h d, times-without_conn c l.held d q)
Steps-Accounted _ (reports x q) h = h
Steps-Accounted _ (reports_stopped x q) h = h
Steps-Accounted _ cancels h = h
Steps-Accounted _ (closes q) h = h
Steps-Accounted _ (returns x q r s t) h = h

-- What every step keeps, every run keeps.
pub run-keeps {ℓ} :
    (P : Listener → Type ℓ) (events : List Event) (l : Listener) {l' : Listener}
    → ((e : Event) (a b : Listener) → Steps e a b → P a → P b)
    → run events l ≡ some l'
    → P l
    → P l'
unfolding run run_step
run-keeps P [] l {l' = l'} keeps q h = let r : l ≡ l' = cc q in subst P r h
run-keeps P (e ∷ events) l keeps q h = elim (Option-cases (apply e l)) [
  | inl gone ↦ absurd (cc (rw gone at q))
  | inr (l₁, there) ↦
      run-keeps P events l₁ keeps (rw there at q) (keeps e l l₁ (apply-Steps e l there) h)
]

-- After any run of a new listener, every connection that the wrapped listener accepted is in exactly
-- one place, as often as it was accepted: with its handshake goroutine, held by a call of Accept that
-- has not answered, handed out by Accept, or closed.
pub run-Accounted :
    (events : List Event) {l : Listener} → run events wrap_ccm_listener ≡ some l → Accounted l
unfolding wrap_ccm_listener
run-Accounted events q =
    run-keeps Accounted events wrap_ccm_listener (λ e a b s h. Steps-Accounted e s h) q λ d. refl

-- ===== src/Tls/Listener/Steps.antt =====
-- The steps of the listener of pkg/sep2tls/ccmserver.go as a relation.
use ieee_2030_5_core_go.Prelude.{
  ℕ, Bool, true, false, not, ◌&&◌, List, [], ◌∷◌, Option, none, some, if◌then◌else◌, ◌≡◌, refl,
  subst,
}
use ieee_2030_5_core_go.Tls.Listener.{
  in_handshake, offering, Worker, AcceptError, err_closed, Loop, accepting, offering_error, stopped,
  handed_out, temporary_error, accept_error, Listener, Event, inner_accepts, inner_fails,
  loop_cancelled, handshake_succeeds, handshake_fails, worker_cancelled, takes_conn, answers_conn,
  takes_error, takes_stopped, cancel, close_inner, wait_returns, without_worker, without_conn,
  if_some, after_inner_error, is_accepting, on_loop_cancelled, on_takes_error, on_takes_stopped,
  on_wait, apply,
}

pub data Steps : Event → Listener → Listener → Type 0 where
  accepts :
      {l : Listener} (c : ℕ) (is_gotls : Bool)
      → l.loop ≡ accepting
      → l.inner_closed ≡ false
      → Steps (inner_accepts c is_gotls) l (record l {
        workers =
            record { conn = c; phase = if is_gotls then in_handshake else offering } ∷ l.workers;
        accepted = c ∷ l.accepted;
      })
  fails :
      {l : Listener} (e : ℕ) (temporary : Bool)
      → l.loop ≡ accepting
      → Steps
          (inner_fails e temporary)
          l
          (record l { loop = after_inner_error l.cancelled e temporary })
  loop_ends :
      {l : Listener} (e : ℕ)
      → l.loop ≡ offering_error e
      → l.cancelled ≡ true
      → Steps loop_cancelled l (record l { loop = stopped err_closed })
  succeeds :
      {l : Listener} (c : ℕ) (ws : List Worker)
      → without_worker c in_handshake l.workers ≡ some ws
      → Steps
          (handshake_succeeds c)
          l
          (record l { workers = record { conn = c; phase = offering } ∷ ws })
  handshake_ends :
      {l : Listener} (c : ℕ) (ws : List Worker)
      → without_worker c in_handshake l.workers ≡ some ws
      → Steps (handshake_fails c) l (record l {
        workers = ws;
        closed_conns = c ∷ l.closed_conns;
        logged = if l.cancelled then l.logged else c ∷ l.logged;
      })
  worker_ends :
      {l : Listener} (c : ℕ) (ws : List Worker)
      → l.cancelled ≡ true
      → without_worker c offering l.workers ≡ some ws
      → Steps (worker_cancelled c) l (record l { workers = ws; closed_conns = c ∷ l.closed_conns })
  takes :
      {l : Listener} (c : ℕ) (ws : List Worker)
      → without_worker c offering l.workers ≡ some ws
      → Steps (takes_conn c) l (record l { workers = ws; held = c ∷ l.held })
  refuses :
      {l : Listener} (c : ℕ) (rest : List ℕ)
      → l.cancelled ≡ true
      → without_conn c l.held ≡ some rest
      → Steps (answers_conn c) l (record l {
        held = rest;
        closed_conns = c ∷ l.closed_conns;
        answers = accept_error err_closed ∷ l.answers;
      })
  hands_out :
      {l : Listener} (c : ℕ) (rest : List ℕ)
      → l.cancelled ≡ false
      → without_conn c l.held ≡ some rest
      → Steps (answers_conn c) l (record l { held = rest; answers = handed_out c ∷ l.answers })
  reports :
      {l : Listener} (e : ℕ)
      → l.loop ≡ offering_error e
      → Steps takes_error l (record l { loop = accepting; answers = temporary_error e ∷ l.answers })
  reports_stopped :
      {l : Listener} (e : AcceptError)
      → l.loop ≡ stopped e
      → Steps takes_stopped l (record l { answers = accept_error e ∷ l.answers })
  cancels : {l : Listener} → Steps cancel l (record l { cancelled = true })
  closes :
      {l : Listener} → l.cancelled ≡ true → Steps close_inner l (record l { inner_closed = true })
  returns :
      {l : Listener} (e : AcceptError)
      → l.loop ≡ stopped e
      → l.workers ≡ []
      → l.cancelled ≡ true
      → l.inner_closed ≡ true
      → Steps wait_returns l (record l { close_returned = true })

if_some-some :
    {A B : Type 0} (o : Option A) (f : A → B) {b : B}
    → if_some o f ≡ some b
    → (a : A) × (o ≡ some a) × (f a ≡ b)
unfolding if_some
if_some-some none f e = absurd (cc e)
if_some-some (some a) f {b = b} e = let q : f a ≡ b = cc e in (a, refl, q)

is_accepting-true : (loop : Loop) → is_accepting loop ≡ true → loop ≡ accepting
unfolding is_accepting
is_accepting-true accepting e = refl
is_accepting-true (offering_error x) e = absurd (cc e)
is_accepting-true (stopped x) e = absurd (cc e)

pub both : (a b : Bool) → (a && b) ≡ true → (a ≡ true) × (b ≡ true)
both true b e = (refl, e)
both false b e = absurd (cc e)

guarded-some :
    {A : Type 0} (b : Bool) (o : Option A) {a : A}
    → (if b then o else none) ≡ some a
    → (b ≡ true) × (o ≡ some a)
guarded-some true o e = (refl, e)
guarded-some false o e = absurd (cc e)

-- The equation of a step moves what the step gives to the state that was computed.
to : (e : Event) {l l₁ l' : Listener} → Steps e l l₁ → some l₁ ≡ some l' → Steps e l l'
to e {l = l} {l₁ = l₁} {l' = l'} step q = let r : l₁ ≡ l' = cc q in subst (λ x. Steps e l x) r step

loop_ended :
    (l : Listener) (loop : Loop) {l' : Listener}
    → l.loop ≡ loop
    → on_loop_cancelled loop l ≡ some l'
    → Steps loop_cancelled l l'
unfolding on_loop_cancelled
loop_ended l accepting q e = absurd (cc e)
loop_ended l (offering_error x) q e =
    let (now, r) = guarded-some l.cancelled _ e in to loop_cancelled (loop_ends x q now) r
loop_ended l (stopped x) q e = absurd (cc e)

error_taken :
    (l : Listener) (loop : Loop) {l' : Listener}
    → l.loop ≡ loop
    → on_takes_error loop l ≡ some l'
    → Steps takes_error l l'
unfolding on_takes_error
error_taken l accepting q e = absurd (cc e)
error_taken l (offering_error x) q e = to takes_error (reports x q) e
error_taken l (stopped x) q e = absurd (cc e)

stop_taken :
    (l : Listener) (loop : Loop) {l' : Listener}
    → l.loop ≡ loop
    → on_takes_stopped loop l ≡ some l'
    → Steps takes_stopped l l'
unfolding on_takes_stopped
stop_taken l accepting q e = absurd (cc e)
stop_taken l (offering_error x) q e = absurd (cc e)
stop_taken l (stopped x) q e = to takes_stopped (reports_stopped x q) e

wait_ended :
    (l : Listener) (loop : Loop) (ws : List Worker) {l' : Listener}
    → l.loop ≡ loop
    → l.workers ≡ ws
    → on_wait loop ws l ≡ some l'
    → Steps wait_returns l l'
unfolding on_wait
wait_ended l accepting ws q r e = absurd (cc e)
wait_ended l (offering_error x) ws q r e = absurd (cc e)
wait_ended l (stopped x) (w ∷ ws) q r e = absurd (cc e)
wait_ended l (stopped x) [] q r e =
    let (h, s) = guarded-some (l.cancelled && l.inner_closed) _ e in
    let (a, b) = both l.cancelled l.inner_closed h in to wait_returns (returns x q r a b) s

answered :
    (l : Listener) (c : ℕ) (rest : List ℕ) (b : Bool) {l' : Listener}
    → l.cancelled ≡ b
    → without_conn c l.held ≡ some rest
    → (if b
        then record l {
          held = rest;
          closed_conns = c ∷ l.closed_conns;
          answers = accept_error err_closed ∷ l.answers;
        }
        else record l { held = rest; answers = handed_out c ∷ l.answers })
      ≡ l'
    → Steps (answers_conn c) l l'
answered l c rest true now q r = subst (λ x. Steps (answers_conn c) l x) r (refuses c rest now q)
answered l c rest false now q r = subst (λ x. Steps (answers_conn c) l x) r (hands_out c rest now q)

-- Each step that the step function takes is one of the relation.
pub apply-Steps : (e : Event) (l : Listener) {l' : Listener} → apply e l ≡ some l' → Steps e l l'
unfolding apply
apply-Steps (inner_accepts c is_gotls) l e =
    let (q, r) = guarded-some (is_accepting l.loop && not l.inner_closed) _ e in
    let (a, b) = both (is_accepting l.loop) (not l.inner_closed) q in
    to (inner_accepts c is_gotls)
      (accepts c is_gotls (is_accepting-true l.loop a) (still l.inner_closed b)) r
  where
    still : (b : Bool) → not b ≡ true → b ≡ false
    still true h = absurd (cc h)
    still false h = refl
apply-Steps (inner_fails x temporary) l e =
    let (q, r) = guarded-some (is_accepting l.loop) _ e in
    to (inner_fails x temporary) (fails x temporary (is_accepting-true l.loop q)) r
apply-Steps (handshake_succeeds c) l e =
    let (ws, q, r) = if_some-some (without_worker c in_handshake l.workers) _ e in
    subst (λ x. Steps (handshake_succeeds c) l x) r (succeeds c ws q)
apply-Steps (handshake_fails c) l e =
    let (ws, q, r) = if_some-some (without_worker c in_handshake l.workers) _ e in
    subst (λ x. Steps (handshake_fails c) l x) r (handshake_ends c ws q)
apply-Steps (worker_cancelled c) l e =
    let (now, e') = guarded-some l.cancelled _ e in
    let (ws, q, r) = if_some-some (without_worker c offering l.workers) _ e' in
    subst (λ x. Steps (worker_cancelled c) l x) r (worker_ends c ws now q)
apply-Steps (takes_conn c) l e =
    let (ws, q, r) = if_some-some (without_worker c offering l.workers) _ e in
    subst (λ x. Steps (takes_conn c) l x) r (takes c ws q)
apply-Steps (answers_conn c) l e =
    let (rest, q, r) = if_some-some (without_conn c l.held) _ e in
    answered l c rest l.cancelled refl q r
apply-Steps cancel l e = to cancel cancels e
apply-Steps close_inner l e =
    let (now, r) = guarded-some l.cancelled _ e in to close_inner (closes now) r
apply-Steps loop_cancelled l e = loop_ended l l.loop refl e
apply-Steps takes_error l e = error_taken l l.loop refl e
apply-Steps takes_stopped l e = stop_taken l l.loop refl e
apply-Steps wait_returns l e = wait_ended l l.loop l.workers refl refl e

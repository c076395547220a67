-- ===== src/Notify/Lifecycle/Trace.antt =====
-- Sequences of Start and Stop calls of pkg/sep2client/notify/receiver.go.
use ieee_2030_5_core_go.Prelude.{
  ℕ, suc, ◌+◌, Bool, List, [], ◌∷◌, ◌++◌, Option, none, some, Text, ◌≡◌, refl, arith, ◌⊎◌, inl, inr,
}
use ieee_2030_5_core_go.Notify.Lifecycle.{
  Receiver, fresh_receiver, already_started, not_started, ok, err, Effect, serve, shutdown, close,
  Outcome, start, addr, stop, Call, start_call, stop_call, call, run, start_with, start_free,
  stop_with, stop_effects,
}

abbrev pub serves : List Effect → ℕ
serves [] = 0
serves (serve id ∷ es) = suc (serves es)
serves (shutdown id ∷ es) = serves es
serves (close id ∷ es) = serves es

abbrev pub shutdowns : List Effect → ℕ
shutdowns [] = 0
shutdowns (serve id ∷ es) = shutdowns es
shutdowns (shutdown id ∷ es) = suc (shutdowns es)
shutdowns (close id ∷ es) = shutdowns es

abbrev running_of : Option ℕ → ℕ
running_of none = 0
running_of (some id) = 1

abbrev pub running : Receiver → ℕ
running r = running_of r.srv

-- The three fields are set together, and name one server.
pub data Agrees : Receiver → Type 0 where
  idle : {r : Receiver} → r.srv ≡ none → r.done_ch ≡ none → r.tls_l ≡ none → Agrees r
  busy :
      {r : Receiver} (id : ℕ) (a : Text)
      → r.srv ≡ some id
      → r.done_ch ≡ some id
      → r.tls_l ≡ some a
      → Agrees r

start_free-Agrees :
    (listen : Option Text) (id : ℕ) (r : Receiver)
    → Agrees r
    → Agrees (start_free listen id r).receiver
unfolding start_free
start_free-Agrees none id r h = h
start_free-Agrees (some a) id r h = busy id a refl refl refl

start_with-Agrees :
    (s : Option ℕ) (listen : Option Text) (id : ℕ) (r : Receiver)
    → Agrees r
    → Agrees (start_with s listen id r).receiver
unfolding start_with
start_with-Agrees (some x) listen id r h = h
start_with-Agrees none listen id r h = start_free-Agrees listen id r h

stop_with-Agrees : (s : Option ℕ) (g c : Bool) → Agrees (stop_with s g c).receiver
unfolding stop_with
stop_with-Agrees none g c = idle refl refl refl
stop_with-Agrees (some id) g c = idle refl refl refl

call-Agrees : (c : Call) (r : Receiver) → Agrees r → Agrees (call c r).receiver
unfolding call
call-Agrees (start_call listen id) r h = start_with-Agrees r.srv listen id r h
call-Agrees (stop_call g c) r h = stop_with-Agrees r.srv g c

abbrev Balanced : Receiver → Outcome (Unit {0}) → Type 0
Balanced r o = serves o.effects + running r ≡ shutdowns o.effects + running o.receiver

call-Balanced : (c : Call) (r : Receiver) → Balanced r (call c r)
unfolding call start_with start_free stop_with stop_effects
call-Balanced (start_call listen id) r = ground arith
call-Balanced (stop_call g c) r = ground arith

run-Agrees : (calls : List Call) (r : Receiver) → Agrees r → Agrees (run calls r).0
unfolding run
run-Agrees [] r h = h
run-Agrees (c ∷ calls) r h = run-Agrees calls (call c r).receiver (call-Agrees c r h)

serves-append : (a b : List Effect) → serves (a ++ b) ≡ serves a + serves b
serves-append [] b = omega arith
serves-append (serve id ∷ a) b = omega (arith, serves-append a b)
serves-append (shutdown id ∷ a) b = serves-append a b
serves-append (close id ∷ a) b = serves-append a b

shutdowns-append : (a b : List Effect) → shutdowns (a ++ b) ≡ shutdowns a + shutdowns b
shutdowns-append [] b = omega arith
shutdowns-append (serve id ∷ a) b = shutdowns-append a b
shutdowns-append (shutdown id ∷ a) b = omega (arith, shutdowns-append a b)
shutdowns-append (close id ∷ a) b = shutdowns-append a b

run-balance :
    (calls : List Call) (r : Receiver)
    → serves (run calls r).1 + running r ≡ shutdowns (run calls r).1 + running (run calls r).0
unfolding run
run-balance [] r = refl
run-balance (c ∷ calls) r =
    let o = call c r in
    let later = (run calls o.receiver).1 in
    omega (
      arith,
      serves-append o.effects later,
      shutdowns-append o.effects later,
      call-Balanced c r,
      run-balance calls o.receiver,
    )

-- After any sequence of Start and Stop calls on a new receiver, whatever the network and the
-- servers answer: the listener, the server and its channel are set together or not at all and
-- belong to one server, and the servers that were started are as many as those that were shut down,
-- plus one if the receiver holds one.
pub run_invariant :
    (calls : List Call)
    → Agrees (run calls fresh_receiver).0
      × (serves (run calls fresh_receiver).1
          ≡ shutdowns (run calls fresh_receiver).1 + running (run calls fresh_receiver).0)
run_invariant calls = (
  run-Agrees calls fresh_receiver (idle refl refl refl),
  omega (arith, run-balance calls fresh_receiver),
)

-- On a receiver whose fields agree: while it holds a server, Start refuses with ErrAlreadyStarted
-- and changes nothing, and Addr gives the bound address; while it holds none, Stop and Addr answer
-- ErrNotStarted and no server is touched.
pub lifecycle_refusals :
    (r : Receiver) (listen : Option Text) (id : ℕ) (graceful closed : Bool)
    → Agrees r
    → ((s : ℕ) × (a : Text) × (r.srv ≡ some s)
        × (start listen id r ≡ record { receiver = r; effects = []; result = err already_started })
        × (addr r ≡ ok a))
      ⊎ ((r.srv ≡ none)
          × (stop graceful closed r
              ≡ record { receiver = fresh_receiver; effects = []; result = err not_started })
          × (addr r ≡ err not_started))
unfolding start stop addr
lifecycle_refusals r listen id g c (idle s d t) = inr (s, rw s, rw t)
lifecycle_refusals r listen id g c (busy n a s d t) = inl (n, a, s, rw s, rw t)

-- Every Stop leaves the receiver ready for another Start: whatever state it was in and whatever the
-- server answered, the next Start with a listener succeeds, serves a new server and sets all three
-- fields to it.
pub start-stop :
    (r : Receiver) (graceful closed : Bool) (a : Text) (id : ℕ)
    → start (some a) id (stop graceful closed r).receiver ≡ record {
      receiver = record { tls_l = some a; srv = some id; done_ch = some id };
      effects = serve id ∷ [];
      result = ok tt;
    }
unfolding start stop
start-stop r g c a id = elim (cases r.srv) [ inl e ↦ rw e | inr (n, e) ↦ rw e ]
  where
    cases : (o : Option ℕ) → (o ≡ none) ⊎ ((n : ℕ) × (o ≡ some n))
    cases none = inl refl
    cases (some n) = inr (n, refl)

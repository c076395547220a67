-- ===== src/Notify/Lifecycle.antt =====
-- pkg/sep2client/notify/receiver.go: Start, Addr and Stop. Each takes the receiver's mutex for the
-- part that reads and writes its fields, so calls from many goroutines are a sequence of these
-- steps. The network and the HTTP server are parameters of a step.
pub mod Trace
use ieee_2030_5_core_go.Prelude.{
  ℕ, suc, ◌+◌, Bool, true, false, List, [], ◌∷◌, ◌++◌, Option, none, some, Text,
}

-- The three fields that the mutex guards. Servers are told apart by a number.
pub record Receiver : Type 0 where
  pub tls_l : Option Text
  pub srv : Option ℕ
  pub done_ch : Option ℕ

-- What `NewReceiver` returns.
abbrev pub fresh_receiver : Receiver
fresh_receiver = record { tls_l = none; srv = none; done_ch = none }

pub data Failure : Type 0 where
  already_started not_started listen_failed serve_failed : Failure

pub data Result {ℓ} (A : Type ℓ) : Type ℓ where
  ok : A → Result A
  err : Failure → Result A

-- What a call does to the HTTP servers.
pub data Effect : Type 0 where
  serve shutdown close : ℕ → Effect

pub record Outcome (A : Type 0) : Type 0 where
  pub receiver : Receiver
  pub effects : List Effect
  pub result : Result A

-- `Start`, behind the test of `srv`: `listen` is the bound address, or `none` if `net.Listen`
-- failed; `id` is the number of the server that is made.
start_free : Option Text → ℕ → Receiver → Outcome (Unit {0})
start_free none id r = record { receiver = r; effects = []; result = err listen_failed }
start_free (some addr) id r = record {
  receiver = record { tls_l = some addr; srv = some id; done_ch = some id };
  effects = serve id ∷ [];
  result = ok tt;
}

start_with : Option ℕ → Option Text → ℕ → Receiver → Outcome (Unit {0})
start_with (some running) listen id r = record {
  receiver = r;
  effects = [];
  result = err already_started;
}
start_with none listen id r = start_free listen id r

unfoldable pub start : Option Text → ℕ → Receiver → Outcome (Unit {0})
unfolding start_free start_with
start listen id r = start_with r.srv listen id r

addr_of : Option Text → Result Text
addr_of none = err not_started
addr_of (some a) = ok a

unfoldable pub addr : Receiver → Result Text
unfolding addr_of
addr r = addr_of r.tls_l

-- What the goroutine of `Start` sends when `Serve` returns: nil if the server was closed.
serve_outcome : Bool → Result (Unit {0})
serve_outcome true = ok tt
serve_outcome false = err serve_failed

-- `Stop` behind the critical section, on the server that it took from the receiver. `graceful`
-- says whether `Shutdown` ended in time, `closed` whether `Serve` returned ErrServerClosed.
stop_effects : Bool → ℕ → List Effect
stop_effects true id = shutdown id ∷ []
stop_effects false id = shutdown id ∷ close id ∷ []

stop_with : Option ℕ → Bool → Bool → Outcome (Unit {0})
stop_with none graceful closed = record {
  receiver = fresh_receiver;
  effects = [];
  result = err not_started;
}
stop_with (some id) graceful closed = record {
  receiver = fresh_receiver;
  effects = stop_effects graceful id;
  result = serve_outcome closed;
}

unfoldable pub stop : Bool → Bool → Receiver → Outcome (Unit {0})
unfolding serve_outcome stop_effects stop_with
stop graceful closed r = stop_with r.srv graceful closed

-- A call, with what the network and the server answer.
pub data Call : Type 0 where
  start_call : Option Text → ℕ → Call
  stop_call : Bool → Bool → Call

unfoldable pub call : Call → Receiver → Outcome (Unit {0})
unfolding start stop
call (start_call listen id) r = start listen id r
call (stop_call graceful closed) r = stop graceful closed r

-- A sequence of calls: the receiver and all effects, in order.
unfoldable pub run : List Call → Receiver → Receiver × List Effect
run [] r = (r, [])
run (c ∷ calls) r =
    let o = call c r in let (r', effects) = run calls o.receiver in (r', o.effects ++ effects)

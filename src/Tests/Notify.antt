-- ===== src/Tests/Notify.antt =====
-- Concrete inputs for the notification receiver.
use Prim.Native.String.{String}
use ieee_2030_5_core_go.Prelude.{ℕ, ◌+◌, [], ◌∷◌, some, true, false, ◌≡◌, ◌↔◌, List, Option, Text}
use ieee_2030_5_core_go.Notify.Lifecycle.{
  Receiver, fresh_receiver, ok, serve, start, stop, Call, start_call, stop_call, run,
}
use ieee_2030_5_core_go.Notify.Lifecycle.Trace.{
  serves, shutdowns, running, Agrees, run_invariant, start-stop,
}
use ieee_2030_5_core_go.Notify.Handler.{Notification, Request, handler}
use ieee_2030_5_core_go.Notify.Handler.Policy.{Admits, Dispatched, handler_dispatch_iff}

abbrev port : Text
port = b':' ∷ b'8' ∷ b'0' ∷ []

abbrev some_calls : List Call
some_calls =
    start_call (some port) 1
    ∷ start_call (some port) 2
    ∷ stop_call false true
    ∷ stop_call true true
    ∷ start_call (some port) 3
    ∷ []

run_invariant_example :
    Agrees (run some_calls fresh_receiver).0
    × (serves (run some_calls fresh_receiver).1
        ≡ shutdowns (run some_calls fresh_receiver).1 + running (run some_calls fresh_receiver).0)
run_invariant_example = run_invariant some_calls

abbrev busy_receiver : Receiver
busy_receiver = record { tls_l = some port; srv = some 1; done_ch = some 1 }

start-stop_example : start (some port) 2 (stop true true busy_receiver).receiver ≡ record {
  receiver = record { tls_l = some port; srv = some 2; done_ch = some 2 };
  effects = serve 2 ∷ [];
  result = ok tt;
}
start-stop_example = start-stop busy_receiver true true port 2

abbrev note : Notification
note = record { subscribed_resource = b'/' ∷ []; new_resource_uri = []; status = 0 }

abbrev media : String → Option String
media s = some "application/sep+xml"

abbrev decode : List ℕ → Option Notification
decode bytes = some note

abbrev good_request : Request ℕ
good_request = record {
  method = "POST";
  content_type = "application/sep+xml; charset=utf-8";
  body = record { bytes = 60 ∷ 62 ∷ []; fails = false };
  peer_certificates = some (5 ∷ []);
}

handler_dispatch_iff_example :
    ((((handler media decode (λ c n. true) true good_request).dispatched ≡ some (5, note))
        ↔ Admits media decode (λ c n. true) true good_request 5 note)
      × (Dispatched media decode
            (λ c n. true)
            true
            5
            note
            (handler media decode (λ c n. true) true good_request)
          ↔ Admits media decode (λ c n. true) true good_request 5 note))
handler_dispatch_iff_example =
    handler_dispatch_iff media decode (λ c n. true) true good_request 5 note

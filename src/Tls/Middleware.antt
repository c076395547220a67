-- ===== src/Tls/Middleware.antt =====
-- pkg/sep2tls/ccmserver.go: how a request learns the identity of its peer over a gotls connection. A
-- connection is the state that gotls reports of it, or one of another type; a handler is a function of
-- the request. Of a state, the fields that the middleware copies.
use Prim.Native.String.{String}
use ieee_2030_5_core_go.Prelude.{ℕ, Bool, List, Option, none, some, ◌≡◌, refl, Text}

pub record ConnectionState : Type 0 where
  pub version : ℕ
  pub handshake_complete : Bool
  pub cipher_suite : ℕ
  pub server_name : String
  pub peer_certificates : List Text

pub data Conn : Type 0 where
  gotls_conn : ConnectionState → Conn
  other_conn : Conn

-- `r.TLS`, and the value under `ccmStateKey` in the request's context.
pub record Request : Type 0 where
  pub tls : Option ConnectionState
  pub ccm_state : Option ConnectionState

-- The `ConnContext` of `SetupCCMServer`.
unfoldable pub conn_context : Conn → Option ConnectionState → Option ConnectionState
conn_context (gotls_conn state) ctx = some state
conn_context other_conn ctx = ctx

from_context : Option ConnectionState → Request → Request
from_context none r = r
from_context (some state) r = record r {
  tls = some (record {
    version = state.version;
    handshake_complete = state.handshake_complete;
    cipher_suite = state.cipher_suite;
    server_name = state.server_name;
    peer_certificates = state.peer_certificates;
  });
}

with_tls : Option ConnectionState → Request → Request
unfolding from_context
with_tls none r = from_context r.ccm_state r
with_tls (some state) r = r

-- `CCMIdentityMiddleware`.
unfoldable pub ccm_identity_middleware {ℓ} : {A : Type ℓ} → (Request → A) → Request → A
unfolding with_tls
ccm_identity_middleware next r = next (with_tls r.tls r)

-- The request of a connection, as the server of net/http makes it: it sets no TLS state for a
-- connection that is not a crypto/tls one.
abbrev pub request_of : Conn → Request
request_of c = record { tls = none; ccm_state = conn_context c none }

-- The identity that a handler behind the middleware sees: of a gotls connection the state of this
-- connection, and of any other connection none; a state that the request already has is kept.
pub ccm_identity_middleware_outcome :
    {A : Type 0} (next : Option ConnectionState → A) (state : ConnectionState) (r : Request)
    → (ccm_identity_middleware (λ q. next q.tls) (request_of (gotls_conn state))
        ≡ next (some state))
      × (ccm_identity_middleware (λ q. next q.tls) (request_of other_conn) ≡ next none)
      × (ccm_identity_middleware (λ q. next q.tls) (record r { tls = some state })
          ≡ next (some state))
unfolding ccm_identity_middleware with_tls from_context conn_context
ccm_identity_middleware_outcome next state r = (refl, refl, refl)

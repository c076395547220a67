-- ===== src/Notify/Handler.antt =====
-- pkg/sep2client/notify/receiver.go: the handler of POST /notify.
-- Parameters: the certificates' type, `mime.ParseMediaType` (the base type, or `none` on an error),
-- `xml.Unmarshal` into a Notification, and the dispatcher, of which the handler sees whether it
-- panicked.
pub mod Policy
use Prim.Native.String.{String}
use text.Mathlib.Text.{◌==◌ as str_eq}
use ieee_2030_5_core_go.Prelude.{
  ℕ, suc, ◌+◌, ◌*◌, Bool, true, false, not, ◌&&◌, List, [], ◌∷◌, Option, none, some, leb, ltb, ◌==◌,
  if◌then◌else◌, Text, length, take,
}

-- The fields that the handler looks at.
pub record Notification : Type 0 where
  pub subscribed_resource : Text
  pub new_resource_uri : Text
  pub status : ℕ

-- A request's body: the bytes that its reader gives, and whether it then fails instead of ending.
pub record Body : Type 0 where
  pub bytes : List ℕ
  pub fails : Bool

pub record Request (Cert : Type 0) : Type 0 where
  pub method : String
  pub content_type : String
  pub body : Body
  -- The peer certificates of the connection in the context, or `none` without a `gotls.Conn`.
  pub peer_certificates : Option (List Cert)

-- The response, and what was dispatched and logged on the way.
pub record Reply (Cert : Type 0) : Type 0 where
  pub status : ℕ
  pub allow : Option String
  pub dispatched : Option (Cert × Notification)
  pub logged : Bool

unfoldable pub max_body_bytes : ℕ
max_body_bytes = 64 * 1024

-- `io.ReadAll(io.LimitReader(body, limit))`: a reader that fails beyond the limit is not asked.
unfoldable pub read_all : ℕ → Body → Option (List ℕ)
read_all limit body =
    if leb limit (length body.bytes)
    then some (take limit body.bytes)
    else if body.fails
    then none
    else some body.bytes

is_empty : Text → Bool
is_empty [] = true
is_empty (c ∷ s) = false

-- The peer's leaf certificate, or nil.
unfoldable pub leaf_of {ℓ} : {Cert : Type ℓ} → Option (List Cert) → Option Cert
leaf_of none = none
leaf_of (some []) = none
leaf_of (some (c ∷ chain)) = some c

module _ {Cert : Type 0} (parse_media_type : String → Option String)
    (unmarshal : List ℕ → Option Notification) (panics : Cert → Notification → Bool)
    (has_logger : Bool) where
  -- `http.Error` before the dispatcher is called.
  refuse : ℕ → Reply Cert
  refuse code = record { status = code; allow = none; dispatched = none; logged = false }

  -- The dispatcher runs under `recover`.
  dispatch : Notification → Option Cert → Reply Cert
  dispatch n none = record { status = 500; allow = none; dispatched = none; logged = has_logger }
  dispatch n (some cert) =
      if panics cert n
      then record { status = 500; allow = none; dispatched = some (cert, n); logged = has_logger }
      else record { status = 204; allow = none; dispatched = some (cert, n); logged = false }

  on_notification : Option (List Cert) → Option Notification → Reply Cert
  on_notification peers none = refuse 400
  on_notification peers (some n) =
      if is_empty n.subscribed_resource && is_empty n.new_resource_uri && n.status == 0
      then refuse 400
      else dispatch n (leaf_of peers)

  on_body : Option (List Cert) → Option (List ℕ) → Reply Cert
  on_body peers none = refuse 400
  on_body peers (some body) =
      if ltb max_body_bytes (length body)
      then refuse 400
      else if length body == 0
      then refuse 400
      else on_notification peers (unmarshal body)

  is_sep_xml : Option String → Bool
  is_sep_xml none = false
  is_sep_xml (some base) = str_eq base "application/sep+xml"

  unfoldable pub handler : Request Cert → Reply Cert
  unfolding refuse dispatch on_notification on_body is_sep_xml is_empty
  handler req =
      if not (str_eq req.method "POST")
      then record { status = 405; allow = some "POST"; dispatched = none; logged = false }
      else if not (is_sep_xml (parse_media_type req.content_type))
      then refuse 415
      else on_body req.peer_certificates (read_all (max_body_bytes + 1) req.body)

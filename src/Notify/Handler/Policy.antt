-- ===== src/Notify/Handler/Policy.antt =====
-- The admission of a request, and theorems on the handler of pkg/sep2client/notify/receiver.go.
use Prim.Native.String.{String}
use text.Mathlib.Text.{◌==◌ as str_eq}
use text.Mathlib.TextEquality.{eq_iff}
use ieee_2030_5_core_go.Prelude.{
  ℕ, ◌+◌, ◌≤◌, ◌<◌, Bool, true, false, ◌&&◌, List, [], ◌∷◌, Option, none, some, leb, ltb, ◌==◌,
  if◌then◌else◌, Text, length, length-take, ◌≡◌, ◌≢◌, ◌↔◌, ◌⊎◌, inl, inr, refl, ap, arith,
  Bool-cases,
}
use ieee_2030_5_core_go.Notify.Handler.{
  Notification, Body, Request, Reply, max_body_bytes, read_all, is_empty, leaf_of, refuse, dispatch,
  on_notification, on_body, is_sep_xml, handler,
}

-- At least one of the three fields is set.
abbrev pub IsSet3 : Notification → Type 0
IsSet3 n = (n.subscribed_resource ≢ []) ⊎ ((n.new_resource_uri ≢ []) ⊎ (n.status ≢ 0))

empty_cases : (s : Text) → ((is_empty s ≡ true) × (s ≡ [])) ⊎ ((is_empty s ≡ false) × (s ≢ []))
unfolding is_empty
empty_cases [] = inl (refl, refl)
empty_cases (c ∷ s) = inr (refl, λ e. cc)

is_blank : Notification → Bool
is_blank n = is_empty n.subscribed_resource && is_empty n.new_resource_uri && n.status == 0

is_blank-IsSet3 : (n : Notification) → (is_blank n ≡ false) ↔ IsSet3 n
unfolding is_blank
is_blank-IsSet3 n = elim (empty_cases n.subscribed_resource) [
  | inl (a, a') ↦ elim (empty_cases n.new_resource_uri) [
    | inl (b, b') ↦ rw (a, b) ((λ h. inr (inr (ground arith))), (λ h. ground (arith, h, a', b')))
    | inr (b, b') ↦ rw (a, b) ((λ h. inr (inl b')), (λ h. refl))
  ]
  | inr (a, a') ↦ rw a ((λ h. inl a'), (λ h. refl))
]

read_all-small :
    (limit : ℕ) (b : Body)
    → b.fails ≡ false
    → length b.bytes ≤ limit
    → read_all (limit + 1) b ≡ some b.bytes
unfolding read_all
read_all-small limit b f h = ground arith

-- What was read is never more than the limit, and is the whole body where it is less.
read_all-cases :
    (limit : ℕ) (b : Body) (bs : List ℕ)
    → read_all (limit + 1) b ≡ some bs
    → ((length bs ≡ limit + 1) × (limit < length b.bytes))
      ⊎ ((bs ≡ b.bytes) × (length b.bytes ≤ limit) × (b.fails ≡ false))
unfolding read_all
read_all-cases limit b bs e = elim (Bool-cases (leb (limit + 1) (length b.bytes))) [
  | inl big ↦ inl (ground (arith, length-take (limit + 1) b.bytes), ground arith)
  | inr small ↦ elim (Bool-cases b.fails) [
    | inl f ↦ absurd (ground arith)
    | inr f ↦ inr (ground arith, ground arith, f)
  ]
]

str_eq_self : (s t : String) → s ≡ t → str_eq s t ≡ true
str_eq_self s t e = (eq_iff s t).1 e

module _ {Cert : Type 0} (parse_media_type : String → Option String)
    (unmarshal : List ℕ → Option Notification) (panics : Cert → Notification → Bool)
    (has_logger : Bool) where
  -- All that the handler checks of a request before it dispatches `n` with `cert`.
  pub record Admits (req : Request Cert) (cert : Cert) (n : Notification) : Type 0 where
    pub post : req.method ≡ "POST"
    pub media : parse_media_type req.content_type ≡ some "application/sep+xml"
    pub complete : req.body.fails ≡ false
    pub not_empty : 0 < length req.body.bytes
    pub not_large : length req.body.bytes ≤ max_body_bytes
    pub decodes : unmarshal req.body.bytes ≡ some n
    pub is_set : IsSet3 n
    pub peer : leaf_of req.peer_certificates ≡ some cert

  abbrev reply : Request Cert → Reply Cert
  reply = handler parse_media_type unmarshal panics has_logger

  -- What a reply tells of the dispatcher.
  abbrev pub Dispatched : Cert → Notification → Reply Cert → Type 0
  Dispatched cert n r =
      (r.dispatched ≡ some (cert, n)) × (r.status ≡ (if panics cert n then 500 else 204))

  dispatch-some :
      (n : Notification) (cert : Cert)
      → Dispatched cert n (dispatch parse_media_type unmarshal panics has_logger n (some cert))
  unfolding dispatch
  dispatch-some n cert = elim (Bool-cases (panics cert n)) [
    | inl p ↦ rw p (refl, refl)
    | inr q ↦ rw q (refl, refl)
  ]

  handler-Admits :
      (req : Request Cert) (cert : Cert) (n : Notification)
      → Admits req cert n
      → Dispatched cert n (reply req)
  unfolding handler is_blank
  handler-Admits req cert n h = rw (str_eq_self req.method "POST" h.post) (
      rw h.media (
        rw (read_all-small max_body_bytes req.body h.complete h.not_large) (
          rw (small (length req.body.bytes) max_body_bytes h.not_large) (
            rw (positive (length req.body.bytes) h.not_empty) (
              rw h.decodes
                (rw ((is_blank-IsSet3 n).1 h.is_set) (rw h.peer (dispatch-some n cert))))))))
    where
      small : (a b : ℕ) → a ≤ b → ltb b a ≡ false
      small a b h = ground arith

      positive : (a : ℕ) → 0 < a → (a == 0) ≡ false
      positive a h = ground arith

  -- The other way: a stage that dispatched has found what it looks for.
  dispatch-back :
      (n m : Notification) (cert : Cert) (o : Option Cert)
      → (dispatch parse_media_type unmarshal panics has_logger n o).dispatched ≡ some (cert, m)
      → (o ≡ some cert) × (n ≡ m)
  unfolding dispatch
  dispatch-back n m cert none e = cc
  dispatch-back n m cert (some c) e = elim (Bool-cases (panics c n)) [
    | inl p ↦ some_pair (rw p at e)
    | inr q ↦ some_pair (rw q at e)
  ]
    where
      some_pair :
          {c : Cert}
          → ◌≡◌ {A = Option (Cert × Notification)} (some (c, n)) (some (cert, m))
          → (some c ≡ some cert) × (n ≡ m)
      some_pair e = (cc e, cc e)

  on_notification-back :
      (peers : Option (List Cert)) (o : Option Notification) (m : Notification) (cert : Cert)
      → (on_notification parse_media_type unmarshal panics has_logger peers o).dispatched
        ≡ some (cert, m)
      → (o ≡ some m) × IsSet3 m × (leaf_of peers ≡ some cert)
  unfolding on_notification refuse is_blank
  on_notification-back peers none m cert e = cc
  on_notification-back peers (some n) m cert e = elim (Bool-cases (is_blank n)) [
    | inl blank ↦ absurd (cc (rw blank at e))
    | inr set ↦
        let (p, q) = dispatch-back n m cert (leaf_of peers) (rw set at e) in
        (ap some q, rw q at ((is_blank-IsSet3 n).0 set), p)
  ]

  on_body-back :
      (peers : Option (List Cert)) (o : Option (List ℕ)) (m : Notification) (cert : Cert)
      → (on_body parse_media_type unmarshal panics has_logger peers o).dispatched ≡ some (cert, m)
      → (body : List ℕ) × (o ≡ some body)
        × (length body ≤ max_body_bytes)
        × (0 < length body)
        × (unmarshal body ≡ some m)
        × IsSet3 m
        × (leaf_of peers ≡ some cert)
  unfolding on_body refuse
  on_body-back peers none m cert e = absurd (cc e)
  on_body-back peers (some body) m cert e = elim (Bool-cases (ltb max_body_bytes (length body))) [
    | inl large ↦ absurd (cc (rw large at e))
    | inr fits ↦ elim (Bool-cases (length body == 0)) [
      | inl empty ↦ absurd (cc (rw (fits, empty) at e))
      | inr some_bytes ↦
          let (d, s, p) =
            on_notification-back peers (unmarshal body) m cert (rw (fits, some_bytes) at e) in
          (body, refl, ground arith, ground arith, d, s, p)
    ]
  ]

  is_sep_xml-back :
      (o : Option String)
      → is_sep_xml parse_media_type unmarshal panics has_logger o ≡ true
      → o ≡ some "application/sep+xml"
  unfolding is_sep_xml
  is_sep_xml-back none e = cc
  is_sep_xml-back (some base) e = ap some ((eq_iff base "application/sep+xml").0 e)

  handler-back :
      (req : Request Cert) (cert : Cert) (n : Notification)
      → (reply req).dispatched ≡ some (cert, n)
      → Admits req cert n
  unfolding handler refuse
  handler-back req cert n e = elim (Bool-cases (str_eq req.method "POST")) [
    | inr other ↦ absurd (cc (rw other at e))
    | inl post ↦
        elim (Bool-cases (
          is_sep_xml parse_media_type unmarshal panics has_logger
            (parse_media_type req.content_type))) [
              | inr other ↦ absurd (cc (rw (post, other) at e))
              | inl sep ↦
                  let (bs, r, le, pos, d, s, p) =
                    on_body-back req.peer_certificates (read_all (max_body_bytes + 1) req.body) n
                      cert (rw (post, sep) at e) in
                  whole post sep bs (read_all-cases max_body_bytes req.body bs r) le pos d s p
            ]
  ]
    where
      whole :
          str_eq req.method "POST" ≡ true
          → is_sep_xml parse_media_type unmarshal panics has_logger
              (parse_media_type req.content_type)
            ≡ true
          → (bs : List ℕ)
          → ((length bs ≡ max_body_bytes + 1) × (max_body_bytes < length req.body.bytes))
            ⊎ ((bs ≡ req.body.bytes)
                × (length req.body.bytes ≤ max_body_bytes)
                × (req.body.fails ≡ false))
          → length bs ≤ max_body_bytes
          → 0 < length bs
          → unmarshal bs ≡ some n
          → IsSet3 n
          → leaf_of req.peer_certificates ≡ some cert
          → Admits req cert n
      whole post sep bs (inl (a, b)) le pos d s p = absurd (omega arith)
      whole post sep bs (inr (a, b, c)) le pos d s p = record {
        post = (eq_iff req.method "POST").0 post;
        media = is_sep_xml-back (parse_media_type req.content_type) sep;
        complete = c;
        not_empty = rw a at pos;
        not_large = b;
        decodes = rw a at d;
        is_set = s;
        peer = p;
      }

  -- The dispatcher is called with a certificate and a Notification exactly on the requests that the
  -- policy admits: a POST whose base media type is application/sep+xml, with a body of 1 to 65536
  -- bytes that is read to its end and decodes to that Notification, one of whose three fields is
  -- set, over a connection whose leaf certificate is that certificate. Then, and only then, the
  -- call also goes with the status 204, or 500 if the dispatcher panics.
  pub handler_dispatch_iff :
      (req : Request Cert) (cert : Cert) (n : Notification)
      → (((reply req).dispatched ≡ some (cert, n)) ↔ Admits req cert n)
        × (Dispatched cert n (reply req) ↔ Admits req cert n)
  handler_dispatch_iff req cert n = (
    (handler-back req cert n, (λ h. (handler-Admits req cert n h).0)),
    ((λ e. handler-back req cert n e.0), handler-Admits req cert n),
  )

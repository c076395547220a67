-- ===== src/Sep2/Namespace/Buffered/Laws.antt =====
-- Theorems on `flush` of pkg/sep2/encoding/namespace.go.
use Prim.Native.String.{String}
use text.Mathlib.Text.{◌==◌ as str_eq}
use text.Mathlib.TextEquality.{eq_iff}
use ieee_2030_5_core_go.Prelude.{
  true, false, List, [], ◌∷◌, ◌++◌, Option, none, some, ◌==◌, if◌then◌else◌, length, Text, ◌≡◌, inl,
  inr, refl, sym, ◌∙◌, Bool-cases,
}
use ieee_2030_5_core_go.Golang.Strconv.{format_uint}
use ieee_2030_5_core_go.Gate.Table.{lookup, mem_name, distinct}
use ieee_2030_5_core_go.Gate.Table.Put.{keys, lookup-put-same, lookup-put-other}
use ieee_2030_5_core_go.Sep2.Namespace.{NamespaceMode}
use ieee_2030_5_core_go.Sep2.Namespace.Buffered.{
  Call, set_header, BufferedWriter, new_writer, on_call, on_calls, rewrite_namespace, value_calls,
  header_calls, flush,
}

abbrev pub last_value : List Text → Option Text
last_value [] = none
last_value (v ∷ []) = some v
last_value (v ∷ w ∷ vals) = last_value (w ∷ vals)

on_calls-append :
    (w : BufferedWriter) (xs ys : List Call) → on_calls w (xs ++ ys) ≡ on_calls (on_calls w xs) ys
unfolding on_calls
on_calls-append w [] ys = refl
on_calls-append w (x ∷ xs) ys = on_calls-append (on_call w x) xs ys

-- Neither body nor status is touched by the calls for the headers.
Untouched : BufferedWriter → BufferedWriter → Type 0
Untouched w w' = (w'.buf ≡ w.buf) × (w'.status ≡ w.status)

value_calls-Untouched :
    (k : String) (vals : List Text) (w : BufferedWriter)
    → Untouched w (on_calls w (value_calls k vals))
unfolding value_calls on_calls on_call Untouched
value_calls-Untouched k [] w = (refl, refl)
value_calls-Untouched k (v ∷ vals) w = value_calls-Untouched k vals (on_call w (set_header k v))

header_calls-Untouched :
    (hs : List (String × List Text)) (w : BufferedWriter)
    → Untouched w (on_calls w (header_calls hs))
unfolding header_calls on_calls Untouched
header_calls-Untouched [] w = (refl, refl)
header_calls-Untouched ((k, vals) ∷ hs) w = elim (Bool-cases (str_eq k "Content-Length")) [
  | inl q ↦ rw q (header_calls-Untouched hs w)
  | inr q ↦
      let (a, b) = value_calls-Untouched k vals w in
      let (c, d) = header_calls-Untouched hs (on_calls w (value_calls k vals)) in
      rw (q, on_calls-append w (value_calls k vals) (header_calls hs)) (c ∙ a, d ∙ b)
]

-- Other names are not touched by the values of one.
lookup-value_calls-other :
    (name k : String) (vals : List Text) (w : BufferedWriter)
    → str_eq name k ≡ false
    → lookup name (on_calls w (value_calls k vals)).headers ≡ lookup name w.headers
unfolding value_calls on_calls on_call
lookup-value_calls-other name k [] w h = refl
lookup-value_calls-other name k (v ∷ vals) w h =
    lookup-value_calls-other name k vals (on_call w (set_header k v)) h
    ∙ lookup-put-other name k (v ∷ []) w.headers h

lookup-value_calls :
    (k : String) (vals : List Text) (w : BufferedWriter) {v : Text}
    → last_value vals ≡ some v
    → lookup k (on_calls w (value_calls k vals)).headers ≡ some (v ∷ [])
unfolding value_calls on_calls on_call
lookup-value_calls k [] w e = absurd (cc e)
lookup-value_calls k (x ∷ []) w {v = v} e =
    let q : x ≡ v = cc e in rw (sym q) (lookup-put-same k (x ∷ []) w.headers)
lookup-value_calls k (x ∷ y ∷ vals) w e =
    lookup-value_calls k (y ∷ vals) (on_call w (set_header k x)) e

lookup-header_calls-other :
    (name : String) (hs : List (String × List Text)) (w : BufferedWriter)
    → mem_name name (keys hs) ≡ false
    → lookup name (on_calls w (header_calls hs)).headers ≡ lookup name w.headers
unfolding header_calls on_calls mem_name
lookup-header_calls-other name [] w h = refl
lookup-header_calls-other name ((k, vals) ∷ hs) w h = elim (Bool-cases (str_eq name k)) [
  | inl same ↦ absurd (cc (rw same at h))
  | inr other ↦
      let ih = lookup-header_calls-other name hs in
      elim (Bool-cases (str_eq k "Content-Length")) [
        | inl q ↦ rw q (ih w (rw other at h))
        | inr q ↦
            rw (q, on_calls-append w (value_calls k vals) (header_calls hs))
              (ih (on_calls w (value_calls k vals)) (rw other at h)
                ∙ lookup-value_calls-other name k vals w other)
      ]
]

lookup-header_calls :
    (name : String) (hs : List (String × List Text)) (w : BufferedWriter) {vals : List Text}
    {v : Text}
    → distinct (keys hs) ≡ true
    → str_eq name "Content-Length" ≡ false
    → lookup name hs ≡ some vals
    → last_value vals ≡ some v
    → lookup name (on_calls w (header_calls hs)).headers ≡ some (v ∷ [])
unfolding header_calls on_calls lookup distinct
lookup-header_calls name [] w d n e l = absurd (cc e)
lookup-header_calls name ((k, xs) ∷ hs) w {vals = vals} d n e l =
    elim (Bool-cases (mem_name k (keys hs))) [
      | inl again ↦ absurd (cc (rw again at d))
      | inr new ↦ elim (Bool-cases (str_eq name k)) [
        | inl same ↦
            let q : k ≡ name = sym ((eq_iff name k).0 same) in
            let r : xs ≡ vals = cc (rw same at e) in
            let new' : mem_name name (keys hs) ≡ false = rw q at new in
            rw (q, n, r, on_calls-append w (value_calls name vals) (header_calls hs))
              (lookup-header_calls-other name hs (on_calls w (value_calls name vals)) new'
                ∙ lookup-value_calls name vals w l)
        | inr other ↦
            let ih = λ (u : BufferedWriter).
              lookup-header_calls name hs u (rw new at d) n (rw other at e) l in
            elim (Bool-cases (str_eq k "Content-Length")) [
              | inl q ↦ rw q (ih w)
              | inr q ↦
                  rw (q, on_calls-append w (value_calls k xs) (header_calls hs))
                    (ih (on_calls w (value_calls k xs)))
            ]
      ]
    ]

-- What the real writer gets from flush: the rewritten body, the status or 200, and the length of this
-- body.
pub flush_outcome :
    (mode : NamespaceMode) (w : BufferedWriter)
    → ((on_calls new_writer (flush mode w)).buf ≡ rewrite_namespace w.buf mode)
      × ((on_calls new_writer (flush mode w)).status ≡ (if w.status == 0 then 200 else w.status))
      × (lookup "Content-Length" (on_calls new_writer (flush mode w)).headers
          ≡ some (format_uint (length (rewrite_namespace w.buf mode)) 10 ∷ []))
unfolding flush on_calls on_call Untouched
flush_outcome mode w =
    let sent = on_calls new_writer (header_calls w.headers) in
    let (a, b) = header_calls-Untouched w.headers new_writer in
    let body = rewrite_namespace w.buf mode in
    rw (on_calls-append new_writer (header_calls w.headers) _) (
      rw a refl,
      refl,
      lookup-put-same "Content-Length" (format_uint (length body) 10 ∷ []) sent.headers,
    )

-- With each header name once in the buffered headers, of a header other than Content-Length only the
-- last value reaches the real writer.
pub flush-last_value :
    (mode : NamespaceMode) (w : BufferedWriter) (name : String) (vals : List Text) (v : Text)
    → distinct (keys w.headers) ≡ true
    → str_eq name "Content-Length" ≡ false
    → lookup name w.headers ≡ some vals
    → last_value vals ≡ some v
    → lookup name (on_calls new_writer (flush mode w)).headers ≡ some (v ∷ [])
unfolding flush on_calls on_call
flush-last_value mode w name vals v d n e l =
    let sent = on_calls new_writer (header_calls w.headers) in
    let body = rewrite_namespace w.buf mode in
    rw (on_calls-append new_writer (header_calls w.headers) _) (
      lookup-put-other name "Content-Length" (format_uint (length body) 10 ∷ []) sent.headers n
      ∙ lookup-header_calls name w.headers new_writer d n e l)

-- ===== src/Sep2/Namespace/Buffered.antt =====
-- pkg/sep2/encoding/namespace.go: the buffered response writer, `RewriteNamespace` and the
-- middleware. A handler is the calls that it makes on its ResponseWriter; the result is the calls that
-- reach the real one. A body is the list of its bytes; header names are taken as canonical.
pub mod Laws
use Prim.Native.String.{String}
use text.Mathlib.Text.{◌==◌ as str_eq}
use ieee_2030_5_core_go.Prelude.{
  ℕ, List, [], ◌∷◌, ◌++◌, Option, none, some, ◌==◌, if◌then◌else◌, length, Text, codes,
}
use ieee_2030_5_core_go.Golang.Bytes.{replace_all}
use ieee_2030_5_core_go.Golang.Strconv.{format_uint}
use ieee_2030_5_core_go.Gate.Table.{lookup, put}
use ieee_2030_5_core_go.Sep2.Namespace.{NamespaceMode, namespace2018, namespace2013}

pub data Call : Type 0 where
  set_header add_header : String → Text → Call
  write_header : ℕ → Call
  write : Text → Call

-- `nsBufferedWriter`; a status of 0 was not set.
pub record BufferedWriter : Type 0 where
  pub buf : Text
  pub status : ℕ
  pub headers : List (String × List Text)

abbrev pub new_writer : BufferedWriter
new_writer = record { buf = []; status = 0; headers = [] }

values_of : Option (List Text) → List Text
values_of none = []
values_of (some vals) = vals

unfoldable pub on_call : BufferedWriter → Call → BufferedWriter
unfolding values_of
on_call w (set_header k v) = record w { headers = put k (v ∷ []) w.headers }
on_call w (add_header k v) = record w {
  headers = put k (values_of (lookup k w.headers) ++ (v ∷ [])) w.headers;
}
on_call w (write_header n) = record w { status = n }
on_call w (write s) = record w { buf = w.buf ++ s }

unfoldable pub on_calls : BufferedWriter → List Call → BufferedWriter
on_calls w [] = w
on_calls w (c ∷ calls) = on_calls (on_call w c) calls

abbrev pub sep_namespace : Text
sep_namespace = codes "urn:ieee:std:2030.5:ns"

abbrev pub sep_namespace2013 : Text
sep_namespace2013 = codes "http://zigbee.org/sep"

unfoldable pub rewrite_namespace : Text → NamespaceMode → Text
rewrite_namespace s namespace2018 = s
rewrite_namespace s namespace2013 = replace_all s sep_namespace sep_namespace2013

-- The loops of `flush` over the headers and their values.
unfoldable pub value_calls : String → List Text → List Call
value_calls k [] = []
value_calls k (v ∷ vals) = set_header k v ∷ value_calls k vals

unfoldable pub header_calls : List (String × List Text) → List Call
header_calls [] = []
header_calls ((k, vals) ∷ rest) =
    if str_eq k "Content-Length" then header_calls rest else value_calls k vals ++ header_calls rest

unfoldable pub flush : NamespaceMode → BufferedWriter → List Call
flush mode w =
    let body = rewrite_namespace w.buf mode in
    header_calls w.headers
    ++ (set_header "Content-Length" (format_uint (length body) 10)
        ∷ write_header (if w.status == 0 then 200 else w.status)
        ∷ write body
        ∷ [])

-- `NamespaceMiddleware` behind `DetectNamespace`.
unfoldable pub namespace_middleware : NamespaceMode → List Call → List Call
namespace_middleware namespace2018 calls = calls
namespace_middleware namespace2013 calls = flush namespace2013 (on_calls new_writer calls)

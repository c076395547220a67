-- ===== src/Tests/Server.antt =====
-- Server configurations from three files, Accept headers, and a buffered response.
use Prim.Native.String.{String}
use text.Mathlib.Text.{◌==◌ as str_eq}
use ieee_2030_5_core_go.Prelude.{
  ℕ, Bool, false, List, [], ◌∷◌, ◌++◌, Option, none, some, ◌==◌, if◌then◌else◌, Text, codes, ◌≡◌,
  inl, inr, refl, sym, subst, arith,
}
use ieee_2030_5_core_go.Gate.Table.{lookup, distinct, mem_name}
use ieee_2030_5_core_go.Cert.San.{Extension}
use ieee_2030_5_core_go.Tls.Verify.{PeerCert}
use ieee_2030_5_core_go.Tls.Server.{
  config, ccm_server_config_with_extra_cas, server_config_from_material,
}
use ieee_2030_5_core_go.Tls.Server.Laws.{ccm_server_config_iff}
use ieee_2030_5_core_go.Sep2.Namespace.{namespace2013, detect_namespace}
use ieee_2030_5_core_go.Sep2.Namespace.Levels.{Level, Level-digit}
use ieee_2030_5_core_go.Sep2.Namespace.Splits.{quote, inside, nothing, next, line, no_lines, Splits}
use ieee_2030_5_core_go.Sep2.Namespace.Detects.{Signals, detect_namespace_iff}
use ieee_2030_5_core_go.Sep2.Namespace.Buffered.{BufferedWriter, new_writer, on_calls, flush}
use ieee_2030_5_core_go.Sep2.Namespace.Buffered.Laws.{flush-last_value}

-- A file holds its own name's code points; each is a certificate of its own.
abbrev read_named : String → Option Text
read_named name = if str_eq name "gone" then none else some (codes name)

abbrev no_hmn : List Extension → Bool × Bool
no_hmn es = (false, false)

abbrev no_parse : List ℕ → Option PeerCert
no_parse raw = none

abbrev never : List ℕ → PeerCert → List PeerCert → Bool
never roots leaf rest = false

ccm_server_config_iff_example :
    ccm_server_config_with_extra_cas {K = Text} {C = ℕ} read_named
      (λ c k. some c)
      (λ pem. pem)
      no_hmn
      no_parse
      never
      "c"
      "k"
      "a"
      []
    ≡ config (
        server_config_from_material {K = Text} {C = ℕ} read_named
          (λ c k. some c)
          (λ pem. pem)
          no_hmn
          no_parse
          never
          (codes "c")
          (b'a' ∷ []))
unfolding server_config_from_material
ccm_server_config_iff_example =
    (ccm_server_config_iff {K = Text} {C = ℕ} read_named (λ c k. some c) (λ pem. pem) no_hmn
        no_parse never "c" "k" "a" []
        (server_config_from_material {K = Text} {C = ℕ} read_named (λ c k. some c) (λ pem. pem)
          no_hmn no_parse never (codes "c") (b'a' ∷ []))).1
      (
        codes "c",
        codes "k",
        codes "c",
        b'a' ∷ [],
        refl,
        refl,
        refl,
        refl,
        inr (refl, (b'a' ∷ [], [], (codes "a", refl, refl, (b'a', [], refl)), refl, refl)),
        record {
          own = refl;
          roots = refl;
          no_server_roots = refl;
          required = refl;
          verified = refl;
          at_least = refl;
          at_most = refl;
          suites = refl;
          curves = refl;
          no_tickets = refl;
        },
      )

-- A media type parser that knows one level of the legacy schema.
abbrev s0_params : List (String × Text)
s0_params = ("level", codes "+s0") ∷ []

abbrev parse_s0 : Text → Option (String × List (String × Text))
parse_s0 part = some ("application/sep+xml", s0_params)

abbrev no_float : Text → Option ℕ
no_float q = none

abbrev is_nought : ℕ → Bool
is_nought n = n == 0

abbrev quoted_comma : Text
quoted_comma = b'"' ∷ b',' ∷ b'"' ∷ []

abbrev s0_level : Level b'0' (codes "+s0")
s0_level = record {
  sign = b'+';
  letter = b's';
  spelled = refl;
  is_sign = inr refl;
  is_letter = inr (inl refl);
}

quoted_comma-Signals : Signals {F = ℕ} parse_s0 no_float is_nought b'0' quoted_comma
unfolding lookup
quoted_comma-Signals = record {
  media = "application/sep+xml";
  params = s0_params;
  reads = refl;
  is_sep = inl refl;
  acceptable = tt;
  level = codes "+s0";
  has_level = refl;
  digit_of_level = s0_level;
}

quoted_comma-not_s1 : ¬ Signals {F = ℕ} parse_s0 no_float is_nought b'1' quoted_comma
unfolding lookup
quoted_comma-not_s1 s =
    let read : some ("application/sep+xml", s0_params) ≡ some (s.media, s.params) = s.reads in
    let same : s0_params ≡ s.params = cc read in
    let has : lookup "level" s0_params ≡ some s.level =
      subst (λ ps. lookup "level" ps ≡ some s.level) (sym same) s.has_level in
    let level : codes "+s0" ≡ s.level = cc has in
    let digits : b'0' ≡ b'1' =
      Level-digit b'0' b'1' s.level (subst (Level b'0') level s0_level) s.digit_of_level in
    absurd (omega (arith, digits))

-- One range with a comma in quotes, and the comma that ends it.
detect_namespace_iff_example :
    detect_namespace {F = ℕ} parse_s0 no_float is_nought ((quoted_comma ++ b',' ∷ []) ∷ [])
    ≡ namespace2013
unfolding lookup
detect_namespace_iff_example =
    (detect_namespace_iff {F = ℕ} parse_s0 no_float is_nought ((quoted_comma ++ b',' ∷ []) ∷ [])).1
      (
        quoted_comma ∷ [],
        line (next (quote (inside (λ e. absurd (omega (arith, e))) (quote nothing))) Splits.nothing)
            no_lines,
        inl quoted_comma-Signals,
        (quoted_comma-not_s1, tt),
      )

-- Two cookies, and a body with the namespace in it.
abbrev two_cookies : BufferedWriter
two_cookies = record {
  buf = codes "<a xmlns='urn:ieee:std:2030.5:ns'/>";
  status = 0;
  headers = ("Set-Cookie", codes "a=1" ∷ codes "b=2" ∷ []) ∷ [];
}

flush-last_value_example :
    lookup "Set-Cookie" (on_calls new_writer (flush namespace2013 two_cookies)).headers
    ≡ some (codes "b=2" ∷ [])
unfolding lookup distinct mem_name
flush-last_value_example =
    flush-last_value namespace2013 two_cookies "Set-Cookie" (codes "a=1" ∷ codes "b=2" ∷ [])
      (codes "b=2") refl refl refl refl

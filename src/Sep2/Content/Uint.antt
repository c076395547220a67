-- ===== src/Sep2/Content/Uint.antt =====
-- Lemmas on `parseUint` of pkg/sep2/der_mode_types.go.
use ieee_2030_5_core_go.Prelude.{ℕ, ◌^◌, ◌<◌, Text, ◌≡◌, ◌≢◌, arith}
use ieee_2030_5_core_go.Golang.Strings.{trim_space, trim_space-NoSpace}
use ieee_2030_5_core_go.Golang.Strconv.{Parsed, parsed, failed, format_uint, parse_uint}
use ieee_2030_5_core_go.Golang.Strconv.Uint.{ten, parse_uint-format_uint}
use ieee_2030_5_core_go.Golang.Strconv.Int.{format_uint-NoSpace}
use ieee_2030_5_core_go.Sep2.Result.{ok, stuck}
use ieee_2030_5_core_go.Sep2.Content.{wrap_uint, parse_uint_text}

pub parse_uint_text-format_uint :
    (v bits : ℕ) → v < 2 ^ bits → v < 2 ^ 64 → parse_uint_text (format_uint v 10) bits ≡ ok v
unfolding parse_uint_text
parse_uint_text-format_uint v bits fits h =
    rw (trim_space-NoSpace _ (format_uint-NoSpace v h))
      (rw (parse_uint-format_uint ten bits v (omega arith) fits h))

wrap_uint-ne_stuck : (p : Parsed ℕ) → wrap_uint p ≢ stuck
unfolding wrap_uint
wrap_uint-ne_stuck (parsed n) = λ e. cc
wrap_uint-ne_stuck (failed e) = λ q. cc

pub parse_uint_text-ne_stuck : (text : Text) (bits : ℕ) → parse_uint_text text bits ≢ stuck
unfolding parse_uint_text
parse_uint_text-ne_stuck text bits = wrap_uint-ne_stuck (parse_uint (trim_space text) 10 bits)

-- ===== src/Sep2/Namespace/Ranges.antt =====
-- Lemmas on the loops of `DetectNamespace` of pkg/sep2/encoding/namespace.go.
use Prim.Native.String.{String}
use ieee_2030_5_core_go.Prelude.{
  ℕ, zero, suc, ◌-◌, ◌≤◌, Bool, true, false, not, ◌&&◌, ◌||◌, List, [], ◌∷◌, ◌++◌, Option, none,
  some, ◌==◌, if◌then◌else◌, length, take, Text, codes, ◌≡◌, ◌↔◌, inl, inr, refl, ap, ◌∙◌, arith,
  Bool-cases,
}
use ieee_2030_5_core_go.Golang.Strings.{trim_space}
use ieee_2030_5_core_go.Gate.Table.{lookup}
use ieee_2030_5_core_go.Sep2.Namespace.{
  namespace2018, namespace2013, max_media_ranges, before_part, range_loop, next_media_range,
  is_sep_media_type, Saw, see_level, see_media, see_range, line_loop, lines_loop, detect_namespace,
  is_level, is_zero_quality,
}

-- The ranges of a line, one after the other.
unfoldable pub ranges_from : ℕ → Text → List Text
ranges_from zero s = []
ranges_from (suc n) [] = []
ranges_from (suc n) (c ∷ s) = let next = next_media_range (c ∷ s) in next.0 ∷ ranges_from n next.1

-- The ranges of a line, with the number of its characters as fuel.
unfoldable pub ranges : Text → List Text
unfolding ranges_from
ranges s = ranges_from (length s) s

abbrev pub all_ranges : List Text → List Text
all_ranges [] = []
all_ranges (line ∷ lines) = ranges line ++ all_ranges lines

range_loop-le : (q : Bool) (s : Text) → length (range_loop q s).1 ≤ length s
unfolding range_loop before_part
range_loop-le q [] = omega arith
range_loop-le q (c ∷ s) = elim (Bool-cases ((c == b',') && not q)) [
  | inl ends ↦ rw ends (omega arith)
  | inr goes ↦ rw goes (omega (arith, range_loop-le (if c == b'"' then not q else q) s))
]

next-lt : (c : ℕ) (s : Text) → length (next_media_range (c ∷ s)).1 ≤ length s
unfolding next_media_range range_loop before_part
next-lt c s = elim (Bool-cases (c == b',')) [
  | inl ends ↦ rw ends (omega arith)
  | inr goes ↦ rw goes (omega (arith, range_loop-le (if c == b'"' then true else false) s))
]

-- More fuel than characters gives no further range.
pub ranges_from-fuel :
    (m n : ℕ) (s : Text) → length s ≤ m → length s ≤ n → ranges_from m s ≡ ranges_from n s
unfolding ranges_from
ranges_from-fuel zero zero s a b = refl
ranges_from-fuel zero (suc n) [] a b = refl
ranges_from-fuel zero (suc n) (c ∷ s) a b = absurd (omega (arith, a))
ranges_from-fuel (suc m) zero [] a b = refl
ranges_from-fuel (suc m) zero (c ∷ s) a b = absurd (omega (arith, b))
ranges_from-fuel (suc m) (suc n) [] a b = refl
ranges_from-fuel (suc m) (suc n) (c ∷ s) a b =
    let le = next-lt c s in
    ap (λ rest. (next_media_range (c ∷ s)).0 ∷ rest)
      (ranges_from-fuel m n (next_media_range (c ∷ s)).1 (omega (arith, a, le))
        (omega (arith, b, le)))

take-append :
    {A : Type 0} (n : ℕ) (xs ys : List A) → take n (xs ++ ys) ≡ take n xs ++ take (n - length xs) ys
take-append zero xs ys = let e : 0 - length xs ≡ 0 = omega arith in rw e refl
take-append (suc n) [] ys = let e : suc n - 0 ≡ suc n = omega arith in rw e refl
take-append (suc n) (x ∷ xs) ys =
    let e : suc n - suc (length xs) ≡ n - length xs = omega arith in
    rw (e, take-append n xs ys) refl

abbrev pub none_seen : Saw
none_seen = record { s1 = false; s0 = false }

abbrev join : Saw → Saw → Saw
join a b = record { s1 = a.s1 || b.s1; s0 = a.s0 || b.s0 }

or_false : (b : Bool) → (b || false) ≡ b
or_false true = refl
or_false false = refl

or_true : (b : Bool) → (b || true) ≡ true
or_true true = refl
or_true false = refl

or_assoc : (a b c : Bool) → ((a || b) || c) ≡ (a || (b || c))
or_assoc true b c = refl
or_assoc false b c = refl

module _ {F : Type 0} (parse_media_type : Text → Option (String × List (String × Text)))
    (parse_float : Text → Option F) (float_is_zero : F → Bool) where
  abbrev see : Text → Saw → Saw
  see = see_range parse_media_type parse_float float_is_zero

  see_all : List Text → Saw → Saw
  see_all [] saw = saw
  see_all (r ∷ rs) saw = see_all rs (see r saw)

  see_all-append :
      (rs qs : List Text) (saw : Saw) → see_all (rs ++ qs) saw ≡ see_all qs (see_all rs saw)
  unfolding see_all
  see_all-append [] qs saw = refl
  see_all-append (r ∷ rs) qs saw = see_all-append rs qs (see r saw)

  line_loop-ranges :
      (n b : ℕ) (s : Text) (saw : Saw)
      → length s ≤ n
      → line_loop parse_media_type parse_float float_is_zero b s saw
        ≡ (b - length (ranges_from n s), see_all (take b (ranges_from n s)) saw)
  unfolding line_loop ranges_from see_all
  line_loop-ranges n zero s saw le =
      let e : 0 - length (ranges_from n s) ≡ 0 = omega arith in rw e refl
  line_loop-ranges zero (suc b) [] saw le = let e : suc b - 0 ≡ suc b = omega arith in rw e refl
  line_loop-ranges (suc n) (suc b) [] saw le = let e : suc b - 0 ≡ suc b = omega arith in rw e refl
  line_loop-ranges zero (suc b) (c ∷ s) saw le = absurd (omega (arith, le))
  line_loop-ranges (suc n) (suc b) (c ∷ s) saw le =
      let next = next_media_range (c ∷ s) in
      let rest = ranges_from n next.1 in
      let e : suc b - suc (length rest) ≡ b - length rest = omega arith in
      rw e (line_loop-ranges n b next.1 (see next.0 saw) (omega (arith, le, next-lt c s)))

  lines_loop-ranges :
      (b : ℕ) (lines : List Text) (saw : Saw)
      → lines_loop parse_media_type parse_float float_is_zero b lines saw
        ≡ see_all (take b (all_ranges lines)) saw
  unfolding lines_loop see_all ranges
  lines_loop-ranges zero [] saw = refl
  lines_loop-ranges (suc b) [] saw = refl
  lines_loop-ranges b (line ∷ lines) saw =
      let here = line_loop-ranges (length line) b line saw (omega arith) in
      let there =
        lines_loop-ranges (b - length (ranges line)) lines (see_all (take b (ranges line)) saw) in
      rw
        (
          here,
          take-append b (ranges line) (all_ranges lines),
          see_all-append (take b (ranges line)) (take (b - length (ranges line)) (all_ranges lines))
              saw,
        )
        there

  -- What one range signals.
  unfoldable pub signals : Text → Saw
  signals part = see part none_seen

  level-joins :
      (level : Option Text) (saw : Saw)
      → see_level parse_media_type parse_float float_is_zero level saw
        ≡ join saw (see_level parse_media_type parse_float float_is_zero level none_seen)
  unfolding see_level
  level-joins level saw = elim (Bool-cases (is_level level (codes "-S1") (codes "+S1"))) [
    | inl q ↦ rw (q, or_true saw.s1, or_false saw.s0) refl
    | inr q ↦ elim (Bool-cases (is_level level (codes "-S0") (codes "+S0"))) [
      | inl r ↦ rw (q, r, or_false saw.s1, or_true saw.s0) refl
      | inr r ↦ rw (q, r, or_false saw.s1, or_false saw.s0) refl
    ]
  ]

  media-joins :
      (o : Option (String × List (String × Text))) (saw : Saw)
      → see_media parse_media_type parse_float float_is_zero o saw
        ≡ join saw (see_media parse_media_type parse_float float_is_zero o none_seen)
  unfolding see_media
  media-joins none saw = rw (or_false saw.s1, or_false saw.s0) refl
  media-joins (some (media_type, params)) saw = elim (Bool-cases (is_sep_media_type media_type)) [
    | inr q ↦ rw (q, or_false saw.s1, or_false saw.s0) refl
    | inl q ↦
        elim (Bool-cases
          (is_zero_quality parse_media_type parse_float float_is_zero (lookup "q" params))) [
            | inl r ↦ rw (q, r, or_false saw.s1, or_false saw.s0) refl
            | inr r ↦ rw (q, r) (level-joins (lookup "level" params) saw)
          ]
  ]

  see-signals : (part : Text) (saw : Saw) → see part saw ≡ join saw (signals part)
  unfolding signals see_range
  see-signals part saw = media-joins (parse_media_type (trim_space part)) saw

  -- Some range signals S1, or S0.
  unfoldable pub some_s1 : List Text → Bool
  some_s1 [] = false
  some_s1 (r ∷ rs) = (signals r).s1 || some_s1 rs

  unfoldable pub some_s0 : List Text → Bool
  some_s0 [] = false
  some_s0 (r ∷ rs) = (signals r).s0 || some_s0 rs

  see_all-signals :
      (rs : List Text) (saw : Saw)
      → see_all rs saw ≡ join saw (record { s1 = some_s1 rs; s0 = some_s0 rs })
  unfolding see_all some_s1 some_s0
  see_all-signals [] saw = rw (or_false saw.s1, or_false saw.s0) refl
  see_all-signals (r ∷ rs) saw =
      rw
        (
          see-signals r saw,
          see_all-signals rs (join saw (signals r)),
          or_assoc saw.s1 (signals r).s1 (some_s1 rs),
          or_assoc saw.s0 (signals r).s0 (some_s0 rs),
        )
        refl

  -- DetectNamespace answers 2013 exactly if, of the first 32 ranges that nextMediaRange gives, one
  -- sets the flag of S0 and none that of S1.
  pub detect_namespace-signals :
      (lines : List Text)
      → (detect_namespace parse_media_type parse_float float_is_zero lines ≡ namespace2013) ↔ (
          (some_s0 (take max_media_ranges (all_ranges lines)) ≡ true)
          × (some_s1 (take max_media_ranges (all_ranges lines)) ≡ false))
  unfolding detect_namespace
  detect_namespace-signals lines =
      let rs = take max_media_ranges (all_ranges lines) in
      let seen =
        lines_loop-ranges max_media_ranges lines none_seen ∙ see_all-signals rs none_seen in
      rw seen (answer (some_s1 rs) (some_s0 rs))
    where
      answer :
          (s1 s0 : Bool)
          → ((if s0 && not s1 then namespace2013 else namespace2018) ≡ namespace2013)
            ↔ ((s0 ≡ true) × (s1 ≡ false))
      answer true true = (λ e. absurd (cc e), λ (a, b). absurd (cc b))
      answer true false = (λ e. absurd (cc e), λ (a, b). absurd (cc a))
      answer false true = (λ e. (refl, refl), λ h. refl)
      answer false false = (λ e. absurd (cc e), λ (a, b). absurd (cc a))

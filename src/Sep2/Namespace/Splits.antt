-- ===== src/Sep2/Namespace/Splits.antt =====
-- The media ranges of an Accept line, for `nextMediaRange` of pkg/sep2/encoding/namespace.go.
use ieee_2030_5_core_go.Prelude.{
  ℕ, zero, suc, ◌≤◌, Bool, true, false, not, List, [], ◌∷◌, ◌++◌, ◌==◌, ==_iff, length, Text, ◌≡◌,
  ◌≢◌, inl, inr, ◌⊎◌, refl, sym, ap, subst, ◌∙◌, arith, Bool-cases,
}
use ieee_2030_5_core_go.Sep2.Namespace.{before_part, range_loop, next_media_range}
use ieee_2030_5_core_go.Sep2.Namespace.Ranges.{ranges_from, ranges, all_ranges}

-- A text with no comma outside quotes, where `q` and `r` tell whether a quote is open in front of
-- the text and behind it.
pub data Quoted : Bool → Text → Bool → Type 0 where
  nothing : {q : Bool} → Quoted q [] q
  quote : {q r : Bool} {s : Text} → Quoted (not q) s r → Quoted q (b'"' ∷ s) r
  inside : {r : Bool} {c : ℕ} {s : Text} → c ≢ b'"' → Quoted true s r → Quoted true (c ∷ s) r
  outside :
      {r : Bool} {c : ℕ} {s : Text}
      → c ≢ b'"'
      → c ≢ b','
      → Quoted false s r
      → Quoted false (c ∷ s) r

-- A line and its media ranges: a range ends at the first comma outside quotes, or at the end.
pub data Splits : Text → List Text → Type 0 where
  nothing : Splits [] []
  last : {c : ℕ} {s : Text} {r : Bool} → Quoted false (c ∷ s) r → Splits (c ∷ s) ((c ∷ s) ∷ [])
  next :
      {part rest : Text} {parts : List Text}
      → Quoted false part false
      → Splits rest parts
      → Splits (part ++ b',' ∷ rest) (part ∷ parts)

differs : (c d : ℕ) → c ≢ d → (c == d) ≡ false
differs c d ne = ground arith

differ : (c d : ℕ) → (c == d) ≡ false → c ≢ d
differ c d e = ground arith

loop-last : (q r : Bool) (s : Text) → Quoted q s r → range_loop q s ≡ (s, [])
unfolding range_loop before_part
loop-last q r s nothing = refl
loop-last q r (_ ∷ s) (quote h) = rw (loop-last (not q) r s h) refl
loop-last q r (c ∷ s) (inside ne h) = elim (Bool-cases (c == b',')) [
  | inl e ↦ rw (e, differs c b'"' ne, loop-last true r s h) refl
  | inr e ↦ rw (e, differs c b'"' ne, loop-last true r s h) refl
]
loop-last q r (c ∷ s) (outside ne nc h) =
    rw (differs c b',' nc, differs c b'"' ne, loop-last false r s h) refl

loop-next :
    (q r : Bool) (part rest : Text)
    → r ≡ false
    → Quoted q part r
    → range_loop q (part ++ b',' ∷ rest) ≡ (part, rest)
unfolding range_loop before_part
loop-next q r [] rest shut nothing = rw shut refl
loop-next q r (_ ∷ s) rest shut (quote h) = rw (loop-next (not q) r s rest shut h) refl
loop-next q r (c ∷ s) rest shut (inside ne h) = elim (Bool-cases (c == b',')) [
  | inl e ↦ rw (e, differs c b'"' ne, loop-next true r s rest shut h) refl
  | inr e ↦ rw (e, differs c b'"' ne, loop-next true r s rest shut h) refl
]
loop-next q r (c ∷ s) rest shut (outside ne nc h) =
    rw (differs c b',' nc, differs c b'"' ne, loop-next false r s rest shut h) refl

ranges_from-next :
    (n : ℕ) (part rest : Text)
    → Quoted false part false
    → ranges_from (suc n) (part ++ b',' ∷ rest) ≡ part ∷ ranges_from n rest
unfolding ranges_from next_media_range
ranges_from-next n [] rest h = rw (loop-next false false [] rest refl h) refl
ranges_from-next n (c ∷ s) rest h = rw (loop-next false false (c ∷ s) rest refl h) refl

length-part : (part rest : Text) → suc (length rest) ≤ length (part ++ b',' ∷ rest)
length-part [] rest = omega arith
length-part (c ∷ s) rest = omega (arith, length-part s rest)

Splits-ranges_from :
    (n : ℕ) (s : Text) (parts : List Text) → Splits s parts → length s ≤ n → ranges_from n s ≡ parts
unfolding ranges_from next_media_range
Splits-ranges_from zero _ _ nothing le = refl
Splits-ranges_from (suc n) _ _ nothing le = refl
Splits-ranges_from zero _ _ (last h) le = absurd (omega (arith, le))
Splits-ranges_from (suc n) _ _ (last {c = c} {s = s} {r = r} h) le =
    rw (loop-last false r (c ∷ s) h) (none_left n (c ∷ s))
  where
    none_left : (n : ℕ) (part : Text) → part ∷ ranges_from n [] ≡ part ∷ []
    none_left zero part = refl
    none_left (suc n) part = refl
Splits-ranges_from zero _ _ (next {part = part} {rest = rest} h t) le =
    absurd (omega (arith, le, length-part part rest))
Splits-ranges_from (suc n) _ _ (next {part = part} {rest = rest} {parts = parts} h t) le =
    ranges_from-next n part rest h
    ∙ ap (λ ps. part ∷ ps)
        (Splits-ranges_from n rest parts t (omega (arith, le, length-part part rest)))

pub Splits-unique : (s : Text) (parts : List Text) → Splits s parts → ranges s ≡ parts
unfolding ranges
Splits-unique s parts h = Splits-ranges_from (length s) s parts h (omega arith)

-- A text up to its first comma outside quotes, if it has one.
abbrev First : Bool → Text → Type 0
First q s =
    ((part : Text) × (rest : Text) × (s ≡ part ++ b',' ∷ rest) × Quoted q part false)
    ⊎ ((r : Bool) × Quoted q s r)

seek_comma : (s : Text) (q : Bool) → First q s
seek_comma [] q = inr (q, nothing)
seek_comma (c ∷ s) q = elim (Bool-cases (c == b'"')) [
  | inl e ↦
      let same : c ≡ b'"' = (==_iff c b'"').0 e in
      rw same (elim (seek_comma s (not q)) [
        | inl (part, rest, cut, h) ↦ inl (b'"' ∷ part, rest, ap (λ t. b'"' ∷ t) cut, quote h)
        | inr (r, h) ↦ inr (r, quote h)
      ])
  | inr e ↦ by_quote q (λ x. seek_comma s x) (differ c b'"' e)
]
  where
    by_quote : (q : Bool) → ((x : Bool) → First x s) → c ≢ b'"' → First q (c ∷ s)
    by_quote true later ne = elim (later true) [
      | inl (part, rest, cut, h) ↦ inl (c ∷ part, rest, ap (λ t. c ∷ t) cut, inside ne h)
      | inr (r, h) ↦ inr (r, inside ne h)
    ]
    by_quote false later ne = elim (Bool-cases (c == b',')) [
      | inl e ↦
          let same : c ≡ b',' = (==_iff c b',').0 e in inl ([], s, ap (λ x. x ∷ s) same, nothing)
      | inr e ↦ elim (later false) [
        | inl (part, rest, cut, h) ↦
            inl (c ∷ part, rest, ap (λ t. c ∷ t) cut, outside ne (differ c b',' e) h)
        | inr (r, h) ↦ inr (r, outside ne (differ c b',' e) h)
      ]
    ]

split_from : (n : ℕ) (s : Text) → length s ≤ n → (parts : List Text) × Splits s parts
split_from n [] le = ([], nothing)
split_from zero (c ∷ s) le = absurd (omega (arith, le))
split_from (suc n) (c ∷ s) le = elim (seek_comma (c ∷ s) false) [
  | inr (r, h) ↦ ((c ∷ s) ∷ [], last h)
  | inl (part, rest, cut, h) ↦
      let longer : suc (length rest) ≤ length (c ∷ s) =
        subst (λ t. suc (length rest) ≤ length t) (sym cut) (length-part part rest) in
      let (parts, t) = split_from n rest (omega (arith, le, longer)) in
      (part ∷ parts, subst (λ t. Splits t (part ∷ parts)) (sym cut) (next h t))
]

-- The media ranges of all lines, in order.
pub data SplitAll : List Text → List Text → Type 0 where
  no_lines : SplitAll [] []
  line :
      {s : Text} {parts more : List Text} {lines : List Text}
      → Splits s parts
      → SplitAll lines more
      → SplitAll (s ∷ lines) (parts ++ more)

pub SplitAll-unique : (lines parts : List Text) → SplitAll lines parts → all_ranges lines ≡ parts
SplitAll-unique _ _ no_lines = refl
SplitAll-unique _ _ (line {s = s} {parts = parts} {more = more} {lines = lines} h t) =
    rw (Splits-unique s parts h, SplitAll-unique lines more t) refl

pub split_all : (lines : List Text) → (parts : List Text) × SplitAll lines parts
split_all [] = ([], no_lines)
split_all (s ∷ lines) =
    let (parts, h) = split_from (length s) s (omega arith) in
    let (more, t) = split_all lines in (parts ++ more, line h t)

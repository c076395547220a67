-- ===== src/Sep2/Namespace/Levels.antt =====
-- The values of the level parameter, for `DetectNamespace` of pkg/sep2/encoding/namespace.go.
use ieee_2030_5_core_go.Prelude.{
  ℕ, ◌<◌, Bool, true, false, ◌&&◌, ◌||◌, [], ◌∷◌, some, ◌==◌, ==_iff, Text, ◌≡◌, ◌↔◌, ◌⊎◌, inl, inr,
  refl, sym, ◌∙◌, arith, Bool-cases,
}
use ieee_2030_5_core_go.Sep2.Namespace.{fold_rune, equal_fold, is_level}

-- A sign, the letter S in either case (or the long s, which folds to it too), and the digit.
pub record Level (digit : ℕ) (level : Text) : Type 0 where
  pub sign : ℕ
  pub letter : ℕ
  pub spelled : level ≡ sign ∷ letter ∷ digit ∷ []
  pub is_sign : (sign ≡ b'-') ⊎ (sign ≡ b'+')
  pub is_letter : (letter ≡ b'S') ⊎ ((letter ≡ b's') ⊎ (letter ≡ 0x17F))

fold-low : (c d : ℕ) → d < 65 → (fold_rune c == d) ≡ true → c ≡ d
unfolding fold_rune
fold-low c d low e = ground arith

fold-letter : (c : ℕ) → (fold_rune c == b'S') ≡ true → (c ≡ b'S') ⊎ ((c ≡ b's') ⊎ (c ≡ 0x17F))
unfolding fold_rune
fold-letter c e = ground arith

low-fold : (c : ℕ) → c < 65 → fold_rune c ≡ c
unfolding fold_rune
low-fold c low = ground arith

letter-fold : (c : ℕ) → (c ≡ b'S') ⊎ ((c ≡ b's') ⊎ (c ≡ 0x17F)) → fold_rune c ≡ b'S'
unfolding fold_rune
letter-fold c h = ground arith

both-true : (a b : Bool) → (a && b) ≡ true → (a ≡ true) × (b ≡ true)
both-true true b e = (refl, e)
both-true false b e = absurd (cc e)

-- One of the two words that `DetectNamespace` compares a level with.
fold-word :
    (sign digit : ℕ) (level : Text)
    → sign < 65
    → digit < 65
    → equal_fold level (sign ∷ b'S' ∷ digit ∷ []) ≡ true
    → (letter : ℕ) × (level ≡ sign ∷ letter ∷ digit ∷ [])
      × ((letter ≡ b'S') ⊎ ((letter ≡ b's') ⊎ (letter ≡ 0x17F)))
unfolding equal_fold
fold-word sign digit [] ls ld e = absurd (cc e)
fold-word sign digit (a ∷ []) ls ld e =
    let q : false ≡ true = (both-true (fold_rune a == fold_rune sign) false e).1 in absurd (cc q)
fold-word sign digit (a ∷ b ∷ []) ls ld e =
    let (p, e₁) =
      both-true (fold_rune a == fold_rune sign) ((fold_rune b == fold_rune b'S') && false) e in
    let q : false ≡ true = (both-true (fold_rune b == fold_rune b'S') false e₁).1 in absurd (cc q)
fold-word sign digit (a ∷ b ∷ c ∷ d ∷ s) ls ld e =
    let (p, e₁) =
      both-true (fold_rune a == fold_rune sign)
        ((fold_rune b == fold_rune b'S') && ((fold_rune c == fold_rune digit) && false)) e in
    let (p₁, e₂) =
      both-true (fold_rune b == fold_rune b'S') ((fold_rune c == fold_rune digit) && false) e₁ in
    let q : false ≡ true = (both-true (fold_rune c == fold_rune digit) false e₂).1 in absurd (cc q)
fold-word sign digit (a ∷ b ∷ c ∷ []) ls ld e =
    let (ea, e₁) =
      both-true (fold_rune a == fold_rune sign)
        ((fold_rune b == fold_rune b'S') && ((fold_rune c == fold_rune digit) && true)) e in
    let (eb, e₂) =
      both-true (fold_rune b == fold_rune b'S') ((fold_rune c == fold_rune digit) && true) e₁ in
    let (ec, e₃) = both-true (fold_rune c == fold_rune digit) true e₂ in
    let same_sign : fold_rune a == sign ≡ true = rw (low-fold sign ls) at ea in
    let same_digit : fold_rune c == digit ≡ true = rw (low-fold digit ld) at ec in
    let is_sign : a ≡ sign = fold-low a sign ls same_sign in
    let is_digit : c ≡ digit = fold-low c digit ld same_digit in
    (b, cc (is_sign, is_digit), fold-letter b eb)

word-fold :
    (sign letter digit : ℕ)
    → (letter ≡ b'S') ⊎ ((letter ≡ b's') ⊎ (letter ≡ 0x17F))
    → equal_fold (sign ∷ letter ∷ digit ∷ []) (sign ∷ b'S' ∷ digit ∷ []) ≡ true
unfolding equal_fold
word-fold sign letter digit h =
    let same : (fold_rune letter == fold_rune b'S') ≡ true = rw (letter-fold letter h) refl in
    rw
      (
        (==_iff (fold_rune sign) (fold_rune sign)).1 refl,
        same,
        (==_iff (fold_rune digit) (fold_rune digit)).1 refl,
      )
      refl

pub is_level-Level :
    (digit : ℕ) (level : Text)
    → digit < 65
    → (is_level (some level) (b'-' ∷ b'S' ∷ digit ∷ []) (b'+' ∷ b'S' ∷ digit ∷ []) ≡ true)
      ↔ Level digit level
unfolding is_level
is_level-Level digit level low = (λ e. there e, back)
  where
    there :
        (equal_fold level (b'-' ∷ b'S' ∷ digit ∷ []) || equal_fold level (b'+' ∷ b'S' ∷ digit ∷ []))
          ≡ true
        → Level digit level
    there e = elim (Bool-cases (equal_fold level (b'-' ∷ b'S' ∷ digit ∷ []))) [
      | inl q ↦
          let (letter, is, letters) = fold-word b'-' digit level (omega arith) low q in
          record {
            sign = b'-';
            letter = letter;
            spelled = is;
            is_sign = inl refl;
            is_letter = letters;
          }
      | inr q ↦
          let (letter, is, letters) = fold-word b'+' digit level (omega arith) low (rw q at e) in
          record {
            sign = b'+';
            letter = letter;
            spelled = is;
            is_sign = inr refl;
            is_letter = letters;
          }
    ]

    or_true : (b : Bool) → (b || true) ≡ true
    or_true true = refl
    or_true false = refl

    back :
        Level digit level
        → (equal_fold level (b'-' ∷ b'S' ∷ digit ∷ [])
            || equal_fold level (b'+' ∷ b'S' ∷ digit ∷ []))
          ≡ true
    back l = elim l.is_sign [
      | inl m ↦ rw (l.spelled, m, word-fold b'-' l.letter digit l.is_letter) refl
      | inr m ↦
          rw (l.spelled, m, word-fold b'+' l.letter digit l.is_letter)
            (or_true (equal_fold (b'+' ∷ l.letter ∷ digit ∷ []) (b'-' ∷ b'S' ∷ digit ∷ [])))
    ]

-- No level has two digits.
pub Level-digit : (d d' : ℕ) (level : Text) → Level d level → Level d' level → d ≡ d'
Level-digit d d' level l l' =
    let same : l.sign ∷ l.letter ∷ d ∷ [] ≡ l'.sign ∷ l'.letter ∷ d' ∷ [] =
      sym l.spelled ∙ l'.spelled in
    cc same

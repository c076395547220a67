-- ===== src/Sep2/Namespace/Detects.antt =====
-- What a media range signals, and theorems on `DetectNamespace` of pkg/sep2/encoding/namespace.go.
use Prim.Native.String.{String}
use text.Mathlib.Text.{◌==◌ as str_eq}
use text.Mathlib.TextEquality.{eq_iff}
use ieee_2030_5_core_go.Prelude.{
  ℕ, Bool, true, false, ◌||◌, List, [], ◌∷◌, Option, none, some, take, Text, codes, All, ◌≡◌, ◌↔◌,
  ◌⊎◌, inl, inr, refl, sym, subst, ◌∙◌, arith, Bool-cases, Option-cases,
}
use ieee_2030_5_core_go.Golang.Strings.{trim_space}
use ieee_2030_5_core_go.Gate.Table.{lookup}
use ieee_2030_5_core_go.Sep2.Namespace.{
  Saw, namespace2013, is_sep_media_type, is_level, is_zero_quality, see_level, see_media, see_range,
  detect_namespace,
}
use ieee_2030_5_core_go.Sep2.Namespace.Levels.{Level, is_level-Level, Level-digit}
use ieee_2030_5_core_go.Sep2.Namespace.Ranges.{
  none_seen, signals, some_s1, some_s0, detect_namespace-signals,
}
use ieee_2030_5_core_go.Sep2.Namespace.Splits.{SplitAll, SplitAll-unique, split_all}

-- Some element of the list has the property.
abbrev pub Any : (Text → Type 0) → List Text → Type 0
Any P [] = ⊥
Any P (r ∷ rs) = P r ⊎ Any P rs

sep-media :
    (media : String)
    → (is_sep_media_type media ≡ true)
      ↔ ((media ≡ "application/sep+xml") ⊎ (media ≡ "application/sep-exi"))
unfolding is_sep_media_type
sep-media media = (there, back)
  where
    there :
        (str_eq media "application/sep+xml" || str_eq media "application/sep-exi") ≡ true
        → (media ≡ "application/sep+xml") ⊎ (media ≡ "application/sep-exi")
    there e = elim (Bool-cases (str_eq media "application/sep+xml")) [
      | inl q ↦ inl ((eq_iff media "application/sep+xml").0 q)
      | inr q ↦ inr ((eq_iff media "application/sep-exi").0 (rw q at e))
    ]

    or_true : (b : Bool) → (b || true) ≡ true
    or_true true = refl
    or_true false = refl

    back :
        (media ≡ "application/sep+xml") ⊎ (media ≡ "application/sep-exi")
        → (str_eq media "application/sep+xml" || str_eq media "application/sep-exi") ≡ true
    back h = elim h [
      | inl q ↦ rw ((eq_iff media "application/sep+xml").1 q) refl
      | inr q ↦
          rw ((eq_iff media "application/sep-exi").1 q)
            (or_true (str_eq media "application/sep+xml"))
    ]

module _ {F : Type 0} (parse_media_type : Text → Option (String × List (String × Text)))
    (parse_float : Text → Option F) (float_is_zero : F → Bool) where
  -- There is no quality, or it is malformed, or it is not zero.
  abbrev pub Acceptable : Option Text → Type 0
  Acceptable none = Unit
  Acceptable (some q) =
      (parse_float q ≡ none) ⊎ ((v : F) × (parse_float q ≡ some v) × (float_is_zero v ≡ false))

  -- The range is of sep+xml or sep-exi, is acceptable, and its level has the digit.
  pub record Signals (digit : ℕ) (part : Text) : Type 0 where
    pub media : String
    pub params : List (String × Text)
    pub reads : parse_media_type (trim_space part) ≡ some (media, params)
    pub is_sep : (media ≡ "application/sep+xml") ⊎ (media ≡ "application/sep-exi")
    pub acceptable : Acceptable (lookup "q" params)
    pub level : Text
    pub has_level : lookup "level" params ≡ some level
    pub digit_of_level : Level digit level

  zero-Acceptable :
      (o : Option Text)
      → (is_zero_quality parse_media_type parse_float float_is_zero o ≡ false) ↔ Acceptable o
  unfolding is_zero_quality
  zero-Acceptable none = (λ e. tt, λ h. refl)
  zero-Acceptable (some q) = elim (Option-cases (parse_float q)) [
    | inl e ↦ rw e (λ h. inl refl, λ h. refl)
    | inr (v, e) ↦ rw e (
      λ h. inr (v, refl, h),
      λ h. elim h [
        | inl gone ↦ absurd (cc gone)
        | inr (w, same, z) ↦ let q : v ≡ w = cc same in rw q z
      ],
    )
  ]

  LevelIs : ℕ → Option Text → Type 0
  LevelIs digit o = (level : Text) × (o ≡ some level) × Level digit level

  level-s1 :
      (o : Option Text)
      → ((see_level parse_media_type parse_float float_is_zero o none_seen).s1 ≡ true)
        ↔ LevelIs b'1' o
  unfolding see_level is_level LevelIs
  level-s1 none = (λ e. absurd (cc e), λ (l, q, h). absurd (cc q))
  level-s1 (some l) =
      let one = is_level-Level b'1' l (omega arith) in
      elim (Bool-cases (is_level (some l) (codes "-S1") (codes "+S1"))) [
        | inl q ↦ (λ e. (l, refl, one.0 q), λ h. rw q refl)
        | inr q ↦ (
          λ e. absurd (elim (Bool-cases (is_level (some l) (codes "-S0") (codes "+S0"))) [
            | inl r ↦ cc (rw (q, r) at e)
            | inr r ↦ cc (rw (q, r) at e)
          ]),
          λ (l', same, h).
              let back : l' ≡ l = cc same in absurd (cc (q, one.1 (subst (Level b'1') back h))),
        )
      ]

  level-s0 :
      (o : Option Text)
      → ((see_level parse_media_type parse_float float_is_zero o none_seen).s0 ≡ true)
        ↔ LevelIs b'0' o
  unfolding see_level is_level LevelIs
  level-s0 none = (λ e. absurd (cc e), λ (l, q, h). absurd (cc q))
  level-s0 (some l) =
      let one = is_level-Level b'1' l (omega arith) in
      let nought = is_level-Level b'0' l (omega arith) in
      elim (Bool-cases (is_level (some l) (codes "-S1") (codes "+S1"))) [
        | inl q ↦ (
          λ e. absurd (cc (rw q at e)),
          λ (l', same, h).
              let back : l' ≡ l = cc same in
              let digits : b'1' ≡ b'0' =
                Level-digit b'1' b'0' l (one.0 q) (subst (Level b'0') back h) in
              absurd (omega (arith, digits)),
        )
        | inr q ↦ elim (Bool-cases (is_level (some l) (codes "-S0") (codes "+S0"))) [
          | inl r ↦ (λ e. (l, refl, nought.0 r), λ h. rw (q, r) refl)
          | inr r ↦ (
            λ e. absurd (cc (rw (q, r) at e)),
            λ (l', same, h).
                let back : l' ≡ l = cc same in
                absurd (cc (r, nought.1 (subst (Level b'0') back h))),
          )
        ]
      ]

  abbrev zero_quality : List (String × Text) → Bool
  zero_quality params =
      is_zero_quality parse_media_type parse_float float_is_zero (lookup "q" params)

  -- Both flags: `get` reads the flag that a level with the digit sets.
  seen-Signals :
      (get : Saw → Bool) (digit : ℕ)
      → get none_seen ≡ false
      → ((o : Option Text)
          → (get (see_level parse_media_type parse_float float_is_zero o none_seen) ≡ true)
            ↔ LevelIs digit o)
      → (part : Text)
      → (get (see_range parse_media_type parse_float float_is_zero part none_seen) ≡ true)
        ↔ Signals digit part
  unfolding see_range see_media LevelIs
  seen-Signals get digit dark by_level part =
      elim (Option-cases (parse_media_type (trim_space part))) [
        | inl e ↦ rw e (λ h. absurd (cc (h, dark)), λ s. let r = s.reads in absurd (cc (e, r)))
        | inr (p, e) ↦ elim (Bool-cases (is_sep_media_type p.0)) [
          | inr q ↦
              rw (e, q)
                (
                  λ h. absurd (cc (h, dark)),
                  λ s.
                      let same : p ≡ (s.media, s.params) = one_media p s e in
                      let is : is_sep_media_type p.0 ≡ true = (sep-media p.0).1 (
                        subst (λ x. (x.0 ≡ "application/sep+xml") ⊎ (x.0 ≡ "application/sep-exi"))
                          (sym same) s.is_sep) in
                      absurd (cc (q, is)),
                )
          | inl q ↦ elim (Bool-cases (zero_quality p.1)) [
            | inl z ↦
                rw (e, q, z)
                  (
                    λ h. absurd (cc (h, dark)),
                    λ s.
                        let same : p ≡ (s.media, s.params) = one_media p s e in
                        let fine : zero_quality p.1 ≡ false =
                          (zero-Acceptable (lookup "q" p.1)).1
                            (subst (λ x. Acceptable (lookup "q" x.1)) (sym same) s.acceptable) in
                        absurd (cc (z, fine)),
                  )
            | inr z ↦
                rw (e, q, z)
                  (
                    λ h.
                        let (level, has, is) = (by_level (lookup "level" p.1)).0 h in
                        record {
                          media = p.0;
                          params = p.1;
                          reads = e;
                          is_sep = (sep-media p.0).0 q;
                          acceptable = (zero-Acceptable (lookup "q" p.1)).0 z;
                          level = level;
                          has_level = has;
                          digit_of_level = is;
                        },
                    λ s.
                        let same : p ≡ (s.media, s.params) = one_media p s e in
                        (by_level (lookup "level" p.1)).1 (
                          s.level,
                          subst (λ x. lookup "level" x.1 ≡ some s.level) (sym same) s.has_level,
                          s.digit_of_level,
                        ),
                  )
          ]
        ]
      ]
    where
      one_media :
          (p : String × List (String × Text)) (s : Signals digit part)
          → parse_media_type (trim_space part) ≡ some p
          → p ≡ (s.media, s.params)
      one_media p s e = let same : some p ≡ some (s.media, s.params) = sym e ∙ s.reads in cc same

  signals-s1 :
      (part : Text)
      → ((signals parse_media_type parse_float float_is_zero part).s1 ≡ true) ↔ Signals b'1' part
  unfolding signals
  signals-s1 part = seen-Signals (λ saw. saw.s1) b'1' refl level-s1 part

  signals-s0 :
      (part : Text)
      → ((signals parse_media_type parse_float float_is_zero part).s0 ≡ true) ↔ Signals b'0' part
  unfolding signals
  signals-s0 part = seen-Signals (λ saw. saw.s0) b'0' refl level-s0 part

  some_s0-Any :
      (rs : List Text)
      → (some_s0 parse_media_type parse_float float_is_zero rs ≡ true) ↔ Any (Signals b'0') rs
  unfolding some_s0
  some_s0-Any [] = (λ e. cc e, λ h. absurd h)
  some_s0-Any (r ∷ rs) =
      elim (Bool-cases (signals parse_media_type parse_float float_is_zero r).s0) [
        | inl q ↦ rw q (λ h. inl ((signals-s0 r).0 q), λ h. refl)
        | inr q ↦ rw q (
          λ h. inr ((some_s0-Any rs).0 h),
          λ h. elim h [
            | inl s ↦ absurd (cc (q, (signals-s0 r).1 s))
            | inr later ↦ (some_s0-Any rs).1 later
          ],
        )
      ]

  some_s1-All :
      (rs : List Text)
      → (some_s1 parse_media_type parse_float float_is_zero rs ≡ false)
        ↔ All (λ r. ¬ Signals b'1' r) rs
  unfolding some_s1
  some_s1-All [] = (λ e. tt, λ h. refl)
  some_s1-All (r ∷ rs) =
      elim (Bool-cases (signals parse_media_type parse_float float_is_zero r).s1) [
        | inl q ↦ rw q (λ h. absurd (cc h), λ (n, h). absurd (n ((signals-s1 r).0 q)))
        | inr q ↦ rw q (
          λ h. ((λ s. absurd (cc (q, (signals-s1 r).1 s))), (some_s1-All rs).0 h),
          λ (n, h). (some_s1-All rs).1 h,
        )
      ]

  -- DetectNamespace answers 2013 exactly if, among the first 32 media ranges of all Accept lines
  -- together, cut at the commas outside quotes, one signals S0 and none signals S1. A range signals
  -- S0 or S1 if its media type is sep+xml or sep-exi, its quality is not zero, and its level is -S
  -- or +S, the letter in either case, with that digit.
  pub detect_namespace_iff :
      (lines : List Text)
      → (detect_namespace parse_media_type parse_float float_is_zero lines ≡ namespace2013) ↔ (
          (parts : List Text) × SplitAll lines parts
          × Any (Signals b'0') (take 32 parts)
          × All (λ r. ¬ Signals b'1' r) (take 32 parts))
  detect_namespace_iff lines =
      let by_flags = detect_namespace-signals parse_media_type parse_float float_is_zero lines in
      (
        λ e.
            let (parts, h) = split_all lines in
            let flags = by_flags.0 e in
            let same = SplitAll-unique lines parts h in
            let (s0, s1) = rw same at flags in
            (parts, h, (some_s0-Any (take 32 parts)).0 s0, (some_s1-All (take 32 parts)).0 s1),
        λ (parts, h, any, all).
            let same = SplitAll-unique lines parts h in
            by_flags.1
              (rw same ((some_s0-Any (take 32 parts)).1 any, (some_s1-All (take 32 parts)).1 all)),
      )

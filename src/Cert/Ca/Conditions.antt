-- ===== src/Cert/Ca/Conditions.antt =====
-- Lemmas on the checks of pkg/sep2cert/validate.go, one by one.
use ieee_2030_5_core_go.Prelude.{
  ℕ, ◌+◌, ◌-◌, ◌^◌, ◌≤◌, Bool, true, false, not, ◌&&◌, ◌||◌, List, [], ◌∷◌, ◌==◌, ◌≡◌, ◌↔◌, ◌⊎◌,
  inl, inr, refl, arith, Bool-cases,
}
use ieee_2030_5_core_go.Prelude.Int.{ℤ, pos, pos_part, neg_part, ltb_ℤ, ◌≤ℤ◌}
use ieee_2030_5_core_go.Cert.Ca.{
  CaError, CaResult, accept, unless, is_nil, usage_any, usage_client_auth, permitted, sub_time,
}

-- Some element of the list is one of the two purposes.
pub data Permits : List ℕ → Type 0 where
  here_client : {us : List ℕ} → Permits (usage_client_auth ∷ us)
  here_any : {us : List ℕ} → Permits (usage_any ∷ us)
  there : {u : ℕ} {us : List ℕ} → Permits us → Permits (u ∷ us)

permitted-Permits : (us : List ℕ) → permitted us ≡ true → Permits us
unfolding permitted
permitted-Permits [] h = absurd (cc h)
permitted-Permits (u ∷ us) h = elim (Bool-cases (u == usage_client_auth)) [
  | inl c ↦ let e : u ≡ 2 = ground arith in rw e here_client
  | inr c ↦ elim (Bool-cases (u == usage_any)) [
    | inl a ↦ let e : u ≡ 0 = ground arith in rw e here_any
    | inr a ↦ there (permitted-Permits us (rw (c, a) at h))
  ]
]

Permits-permitted : (us : List ℕ) → Permits us → permitted us ≡ true
unfolding permitted
Permits-permitted [] h = elim h [ ]
Permits-permitted (u ∷ us) here_client = refl
Permits-permitted (u ∷ us) here_any = refl
Permits-permitted (u ∷ us) (there h) = rw (Permits-permitted us h) (ground arith)

pub is_nil_iff : {A : Type 0} (s : List A) → (is_nil s ≡ true) ↔ (s ≡ [])
unfolding is_nil
is_nil_iff [] = ((λ h. refl), (λ h. refl))
is_nil_iff (a ∷ s) = ((λ h. absurd (cc h)), (λ h. absurd (cc h)))

-- The validity window, the margin and the signature. The margin counts in exact integers, so that
-- the limits of `Sub` never matter.
pub record InWindow (not_before not_after now min_remaining : ℤ) : Type 0 where
  pub started : not_before ≤ℤ now
  pub not_ended : now ≤ℤ not_after
  pub margin :
      (min_remaining ≤ℤ pos 0)
      ⊎ (pos_part now + neg_part not_after + pos_part min_remaining
          ≤ pos_part not_after + neg_part now + neg_part min_remaining)

pub sub_time-margin :
    (t u d : ℤ)
    → d ≤ℤ pos (2 ^ 63 - 1)
    → ((ltb_ℤ (pos 0) d && ltb_ℤ (sub_time t u) d) ≡ false) ↔ (
        (d ≤ℤ pos 0)
        ⊎ (pos_part u + neg_part t + pos_part d ≤ pos_part t + neg_part u + neg_part d))
unfolding sub_time
sub_time-margin t u d high = (λ h. ground arith, λ h. ground arith)

pub unless-accept :
    {A : Type 0} (c : Bool) (e : CaError) (r : CaResult A) (a : A)
    → (unless c e r ≡ accept a) ↔ ((c ≡ false) × (r ≡ accept a))
unfolding unless
unless-accept true e r a = ((λ h. absurd (cc h)), (λ h. absurd (cc h.0)))
unless-accept false e r a = ((λ h. (refl, h)), (λ h. h.1))

pub purposes_iff :
    (eku : List ℕ) (unknown : List (List ℕ))
    → (((not (is_nil eku) || not (is_nil unknown)) && not (permitted eku)) ≡ false)
      ↔ (((eku ≡ []) × (unknown ≡ [])) ⊎ Permits eku)
unfolding is_nil
purposes_iff eku unknown = elim (Bool-cases (permitted eku)) [
  | inl listed ↦ ((λ h. inr (permitted-Permits eku listed)), (λ h. rw listed (ground arith)))
  | inr missing ↦ (
    λ h. inl ((is_nil_iff eku).0 (ground arith), (is_nil_iff unknown).0 (ground arith)),
    λ h. elim h [
      | inl (a, b) ↦ rw (a, b) refl
      | inr p ↦ absurd (cc (missing, Permits-permitted eku p))
    ],
  )
]

pub neither : (a b : Bool) → ((not a || not b) ≡ false) ↔ ((a ≡ true) × (b ≡ true))
neither a b = (λ h. ground arith, λ h. ground arith)

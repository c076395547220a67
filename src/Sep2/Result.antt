-- ===== src/Sep2/Result.antt =====
-- The errors of pkg/sep2's decoders and encoders, by kind; the message texts are not modelled.
use Prim.Native.String.{String}
use ieee_2030_5_core_go.Prelude.{ℕ, ◌≡◌, ◌≢◌, refl, ◌⊎◌, inl, inr, Text}
use ieee_2030_5_core_go.Prelude.Int.{ℤ}
use ieee_2030_5_core_go.Golang.Strconv.{NumError}

pub data Error : Type 0 where
  bad_token bad_json empty_scalar empty_href : Error
  bad_number : NumError → Error
  out_of_range : ℤ → ℤ → ℤ → Error
  bad_ref_type : ℕ → Error
  unexpected_child : String → Error
  unexpected_element : String → Error
  wrong_namespace : String → Error
  missing_element : String → Error
  unexpected_text : Text → Error
  missing_field : String → Error

-- `stuck` is the answer of a loop that runs out of fuel; the theorems show that none does.
pub data Result {ℓ} (V : Type ℓ) : Type ℓ where
  stuck : Result V
  err : Error → Result V
  ok : V → Result V

infixl 5 ◌>>=◌ ◌>>◌
abbrev pub ◌>>=◌ {ℓ ℓ'} : {V : Type ℓ} {W : Type ℓ'} → Result V → (V → Result W) → Result W
stuck >>= next = stuck
err why >>= next = err why
ok v >>= next = next v

abbrev pub ◌>>◌ {ℓ} : {W : Type ℓ} → Result (Unit {0}) → Result W → Result W
stuck >> r = stuck
err why >> r = err why
ok u >> r = r

pub >>=-eq-ok {ℓ ℓ'} :
    {V : Type ℓ} {W : Type ℓ'} (r : Result V) (next : V → Result W) {w : W}
    → (r >>= next) ≡ ok w
    → (v : V) × (r ≡ ok v) × (next v ≡ ok w)
>>=-eq-ok stuck next h = cc
>>=-eq-ok (err why) next h = cc
>>=-eq-ok (ok v) next h = (v, refl, h)

pub Result-cases {ℓ} :
    {A : Type ℓ} (r : Result A)
    → ((a : A) × (r ≡ ok a)) ⊎ (((e : Error) × (r ≡ err e)) ⊎ (r ≡ stuck))
Result-cases (ok a) = inl (a, refl)
Result-cases (err e) = inr (inl (e, refl))
Result-cases stuck = inr (inr refl)

-- The receiver after an `Unmarshal…` call, and the error.
abbrev pub assign {ℓ} : {A : Type ℓ} → A → Result A → A × Result (Unit {0})
assign old (ok v) = (v, ok tt)
assign old (err e) = (old, err e)
assign old stuck = (old, stuck)

pub >>=-ne_stuck {ℓ κ} :
    {A : Type ℓ} {B : Type κ} (m : Result A) (f : A → Result B)
    → m ≢ stuck
    → ((a : A) → m ≡ ok a → f a ≢ stuck)
    → (m >>= f) ≢ stuck
>>=-ne_stuck (ok a) f h k = k a refl
>>=-ne_stuck (err e) f h k = λ q. cc
>>=-ne_stuck stuck f h k = absurd (h refl)

-- ===== src/Base/Effects.antt =====
-- Exceptions, and code that mutates a world and may raise. What was written before a raise stays
-- written, so the world comes back beside the exception too.
use Prim.Native.String.{String}
use mathlib.Core.Path.{◌≡◌, refl, ap, subst}
use mathlib.Core.Logic.{◌⊎◌, inl, inr}
use mathlib.Core.Bool.{Bool, true, false}

-- The exception classes that the modelled code raises itself, and any other. Each carries `str(exc)`.
pub data Exception : Type 0 where
  value_error runtime_error : String → Exception
  other_error : String → String → Exception

abbrev pub message : Exception → String
message (value_error s) = s
message (runtime_error s) = s
message (other_error name s) = s

-- `exc.__class__.__name__`
abbrev pub class_name : Exception → String
class_name (value_error s) = "ValueError"
class_name (runtime_error s) = "RuntimeError"
class_name (other_error name s) = name

pub data Result {ℓ} (A : Type ℓ) : Type ℓ where
  ok : A → Result A
  err : Exception → Result A

abbrev pub Exec {ℓ} : Type ℓ → Type ℓ → Type ℓ
Exec W A = W → Result A × W

module _ {ℓ} {W A : Type ℓ} where
  abbrev pub pure : A → Exec W A
  pure a w = (ok a, w)

  abbrev pub raise : Exception → Exec W A
  raise e w = (err e, w)

  abbrev pub lift : Result A → Exec W A
  lift r w = (r, w)

  abbrev pub gets : (W → A) → Exec W A
  gets f w = (ok (f w), w)

  -- `try: m` / `except Exception as e: handler(e)`
  abbrev pub try_except : Exec W A → (Exception → Exec W A) → Exec W A
  try_except m handler w = let (r, w') = m w in elim r [ ok a ↦ (ok a, w') | err e ↦ handler e w' ]

infixl 5 ◌>>=◌ ◌>>◌
abbrev pub ◌>>=◌ {ℓ} : {W A B : Type ℓ} → Exec W A → (A → Exec W B) → Exec W B
◌>>=◌ m f w = let (r, w') = m w in elim r [ ok a ↦ f a w' | err e ↦ (err e, w') ]

abbrev pub ◌>>◌ {ℓ} : {W A B : Type ℓ} → Exec W A → Exec W B → Exec W B
m >> k = m >>= λ _. k

abbrev pub modify {ℓ} : {W : Type ℓ} → (W → W) → Exec W (Unit {ℓ})
modify f w = (ok tt, f w)

abbrev pub is_ok {ℓ} : {A : Type ℓ} → Result A → Bool
is_ok (ok a) = true
is_ok (err e) = false

-- The same for code that changes no world.
abbrev pub and_then {ℓ κ} : {A : Type ℓ} {B : Type κ} → Result A → (A → Result B) → Result B
and_then (ok a) f = f a
and_then (err e) f = err e

-- What holds of a result where there is one.
abbrev pub Gives : {A : Type 0} → (A → Type 0) → Result A → Type 0
Gives P (ok a) = P a
Gives P (err exc) = Unit {0}

pub Gives-and_then :
    {A B : Type 0} (Q : B → Type 0) (P : A → Type 0) (m : Result A) (f : A → Result B)
    → Gives P m
    → ((a : A) → P a → Gives Q (f a))
    → Gives Q (and_then m f)
Gives-and_then Q P (ok a) f h k = k a h
Gives-and_then Q P (err exc) f h k = tt

pub Gives-map :
    {A : Type 0} {P Q : A → Type 0} (m : Result A) → Gives P m → ((a : A) → P a → Q a) → Gives Q m
Gives-map (ok a) h k = k a h
Gives-map (err exc) h k = tt

pub Gives-all :
    {A I : Type 0} (P : I → A → Type 0) (m : Result A)
    → ((i : I) → Gives (P i) m)
    → Gives (λ a. (i : I) → P i a) m
Gives-all P (ok a) h = h
Gives-all P (err exc) h = tt

pub Gives-both :
    {A : Type 0} (P Q : A → Type 0) (m : Result A)
    → Gives P m
    → Gives Q m
    → Gives (λ a. P a × Q a) m
Gives-both P Q (ok a) h k = (h, k)
Gives-both P Q (err exc) h k = tt

pub Gives-ok : {A : Type 0} (P : A → Type 0) {m : Result A} {a : A} → m ≡ ok a → Gives P m → P a
Gives-ok P e h = subst (Gives P) e h

pub Gives-any : {A : Type 0} (m : Result A) → Gives (λ a. Unit {0}) m
Gives-any (ok a) = tt
Gives-any (err exc) = tt

module _ {ℓ} {W A B : Type ℓ} where
  -- How a sequence goes on from an end of its first part.
  pub >>=-ok :
      (m : Exec W A) (f : A → Exec W B) {w w' : W} {a : A} → m w ≡ (ok a, w') → (m >>= f) w ≡ f a w'
  >>=-ok m f e = ap (λ (x : Result A × W). elim x.0 [ ok a ↦ f a x.1 | err e ↦ (err e, x.1) ]) e

  pub >>=-err :
      (m : Exec W A) (f : A → Exec W B) {w w' : W} {exc : Exception}
      → m w ≡ (err exc, w')
      → (m >>= f) w ≡ (err exc, w')
  >>=-err m f e = ap (λ (x : Result A × W). elim x.0 [ ok a ↦ f a x.1 | err e ↦ (err e, x.1) ]) e

module _ {ℓ} {W A : Type ℓ} where
  pub try_except-ok :
      (m : Exec W A) (handler : Exception → Exec W A) {w w' : W} {a : A}
      → m w ≡ (ok a, w')
      → try_except m handler w ≡ (ok a, w')
  try_except-ok m handler e =
      ap (λ (x : Result A × W). elim x.0 [ ok a ↦ (ok a, x.1) | err e ↦ handler e x.1 ]) e

  pub try_except-err :
      (m : Exec W A) (handler : Exception → Exec W A) {w w' : W} {exc : Exception}
      → m w ≡ (err exc, w')
      → try_except m handler w ≡ handler exc w'
  try_except-err m handler e =
      ap (λ (x : Result A × W). elim x.0 [ ok a ↦ (ok a, x.1) | err e ↦ handler e x.1 ]) e

  -- Every run of an action ends in one of two ways.
  pub Exec-cases :
      (m : Exec W A) (w : W)
      → ((a : A) × (w' : W) × (m w ≡ (ok a, w')))
        ⊎ ((exc : Exception) × (w' : W) × (m w ≡ (err exc, w')))
  Exec-cases m w = go (m w) refl
    where
      go :
          (x : Result A × W)
          → m w ≡ x
          → ((a : A) × (w' : W) × (m w ≡ (ok a, w')))
            ⊎ ((exc : Exception) × (w' : W) × (m w ≡ (err exc, w')))
      go (ok a, w') e = inl (a, w', e)
      go (err exc, w') e = inr (exc, w', e)

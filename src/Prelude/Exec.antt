-- ===== src/Prelude/Exec.antt =====
-- Methods that change a state and may fail. What was written before an error stays written, so the
-- state comes back beside the error too.
use mathlib.Core.Path.{◌≡◌, refl}
use mathlib.Core.Option.{Option, none, some}
use mathlib.Core.Logic.{◌⊎◌, inl, inr}

pub data Result {ℓ κ} (E : Type ℓ) (A : Type κ) : Type (ℓ ⊔ κ) where
  ok : A → Result E A
  err : E → Result E A

abbrev pub Exec {ℓ} : Type ℓ → Type ℓ → Type ℓ → Type ℓ
Exec S E A = S → Result E A × S

module _ {ℓ} {S E A : Type ℓ} where
  abbrev pub pure : A → Exec S E A
  pure a s = (ok a, s)

  abbrev pub raise : E → Exec S E A
  raise e s = (err e, s)

  abbrev pub lift : Result E A → Exec S E A
  lift r s = (r, s)

  abbrev pub gets : (S → A) → Exec S E A
  gets f s = (ok (f s), s)

module _ {ℓ} {S E A B : Type ℓ} where
  abbrev pub continue : Result E A → (A → Exec S E B) → Exec S E B
  continue (ok a) f s = f a s
  continue (err e) f s = (err e, s)

  infixl 5 ◌>>=◌ ◌>>◌
  abbrev pub ◌>>=◌ : Exec S E A → (A → Exec S E B) → Exec S E B
  ◌>>=◌ m f s = continue (m s).0 f (m s).1

  abbrev pub ◌>>◌ : Exec S E A → Exec S E B → Exec S E B
  m >> n = m >>= λ _. n

-- `.ok_or(e)?`
abbrev pub ok_or {ℓ} : {E A : Type ℓ} → Option A → E → Result E A
ok_or (some a) e = ok a
ok_or none e = err e

-- `.map_err(f)`
abbrev pub map_err {ℓ κ} : {E F : Type ℓ} {A : Type κ} → (E → F) → Result E A → Result F A
map_err f (ok a) = ok a
map_err f (err e) = err (f e)

pub Result-cases {ℓ κ} :
    {E : Type ℓ} {A : Type κ} (r : Result E A) → ((a : A) × (r ≡ ok a)) ⊎ ((e : E) × (r ≡ err e))
Result-cases (ok a) = inl (a, refl)
Result-cases (err e) = inr (e, refl)

-- A `?` on a result, where the step has no state.
infixl 5 ◌and_then◌
abbrev pub ◌and_then◌ {ℓ κ} :
    {E : Type ℓ} {A B : Type κ} → Result E A → (A → Result E B) → Result E B
ok a and_then f = f a
err e and_then f = err e

pub bind_ok {ℓ} :
    {S E A B : Type ℓ} (m : Exec S E A) (f : A → Exec S E B) (s t : S) (a : A)
    → m s ≡ (ok a, t)
    → (m >>= f) s ≡ f a t
bind_ok m f s t a h = rw h refl

pub bind_err {ℓ} :
    {S E A B : Type ℓ} (m : Exec S E A) (f : A → Exec S E B) (s : S) (e : E)
    → (m s).0 ≡ err e
    → ((m >>= f) s).0 ≡ err e
bind_err m f s e h = rw h refl

-- What holds after a step that ends the block, and after the rest of it, holds after the block.
module _ {ℓ κ} {S E A B : Type ℓ} where
  continue_rule :
      (Q : Result E B → S → Type κ) (r : Result E A) (f : A → Exec S E B) (t : S)
      → ((a : A) → r ≡ ok a → Q (f a t).0 (f a t).1)
      → ((e : E) → r ≡ err e → Q (err e) t)
      → Q (continue r f t).0 (continue r f t).1
  continue_rule Q (ok a) f t returns raises = returns a refl
  continue_rule Q (err e) f t returns raises = raises e refl

  pub bind_rule :
      (Q : Result E B → S → Type κ) (m : Exec S E A) (f : A → Exec S E B) (s : S)
      → ((a : A) → (m s).0 ≡ ok a → Q (f a (m s).1).0 (f a (m s).1).1)
      → ((e : E) → (m s).0 ≡ err e → Q (err e) (m s).1)
      → Q ((m >>= f) s).0 ((m >>= f) s).1
  bind_rule Q m f s = continue_rule Q (m s).0 f (m s).1

  -- The same with the state after the step named `t`.
  pub bind_step :
      (Q : Result E B → S → Type κ) (m : Exec S E A) (f : A → Exec S E B) (s : S)
      → ((a : A) (t : S) → (m s).0 ≡ ok a → (m s).1 ≡ t → Q (f a t).0 (f a t).1)
      → ((e : E) (t : S) → (m s).0 ≡ err e → (m s).1 ≡ t → Q (err e) t)
      → Q ((m >>= f) s).0 ((m >>= f) s).1
  bind_step Q m f s returns raises =
      bind_rule Q m f s (λ a h. returns a (m s).1 h refl) (λ e h. raises e (m s).1 h refl)

  pub lift_step :
      (Q : Result E B → S → Type κ) (r : Result E A) (f : A → Exec S E B) (s : S)
      → ((a : A) → r ≡ ok a → Q (f a s).0 (f a s).1)
      → ((e : E) → r ≡ err e → Q (err e) s)
      → Q ((lift r >>= f) s).0 ((lift r >>= f) s).1
  lift_step Q r f s = continue_rule Q r f s

-- Two blocks that go on in the same way after their first step are one.
module _ {ℓ} {S E A B : Type ℓ} where
  continue_ext :
      (r : Result E A) (f g : A → Exec S E B) (t : S)
      → ((a : A) → r ≡ ok a → f a t ≡ g a t)
      → continue r f t ≡ continue r g t
  continue_ext (ok a) f g t same = same a refl
  continue_ext (err e) f g t same = refl

  pub bind_ext :
      (m : Exec S E A) (f g : A → Exec S E B) (s : S)
      → ((a : A) → (m s).0 ≡ ok a → f a (m s).1 ≡ g a (m s).1)
      → (m >>= f) s ≡ (m >>= g) s
  bind_ext m f g s = continue_ext (m s).0 f g (m s).1

-- `m` keeps `P`, whether it returns or fails.
pub record Keeps {ℓ κ} {S E A : Type ℓ} (P : S → Type κ) (m : Exec S E A) : Type (ℓ ⊔ κ) where
  pub at : (s : S) → P s → P (m s).1

module _ {ℓ κ} {S E A : Type ℓ} (P : S → Type κ) where
  pub Keeps-pure : (r : Result E A) → Keeps P (lift r)
  Keeps-pure r = record { at = λ s h. h }

module _ {ℓ κ} {S E A B : Type ℓ} (P : S → Type κ) where
  pub Keeps-bind :
      (m : Exec S E A) (f : A → Exec S E B)
      → Keeps P m
      → ((a : A) → Keeps P (f a))
      → Keeps P (m >>= f)
  Keeps-bind m f km kf = record {
    at = λ s h.
        bind_rule (λ _ t. P t) m f s (λ a _. (kf a).at (m s).1 (km.at s h)) (λ e _. km.at s h);
  }

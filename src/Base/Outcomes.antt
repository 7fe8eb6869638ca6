-- ===== src/Base/Outcomes.antt =====
-- How a run of C code ends: with a value, in undefined behaviour, or blocked for ever.
use mathlib.Core.Logic.{◌⊎◌, inl, inr}
use mathlib.Core.Path.{◌≡◌, refl}

-- A NULL pointer or an uninitialised pointer is followed, freed memory is read, or a string is
-- written past the end of its buffer.
pub data Fault : Type 0 where
  null_pointer wild_pointer use_after_free buffer_overflow : Fault

-- `blocked`: the thread waits in `recv` for bytes that never come.
pub data Run {ℓ} (A : Type ℓ) : Type ℓ where
  ok : A → Run A
  fault : Fault → Run A
  blocked : Run A

module _ {ℓ κ} {A : Type ℓ} {B : Type κ} where
  abbrev pub and_then : Run A → (A → Run B) → Run B
  and_then (ok a) f = f a
  and_then (fault e) f = fault e
  and_then blocked f = blocked

module _ {ℓ κ} {A : Type ℓ} {B : Type κ} where
  pub and_then-eq-ok :
      (r : Run A) (f : A → Run B) {b : B}
      → and_then r f ≡ ok b
      → (a : A) × (r ≡ ok a) × (f a ≡ ok b)
  and_then-eq-ok (ok a) f h = (a, refl, h)
  and_then-eq-ok (fault e) f h = cc
  and_then-eq-ok blocked f h = cc

pub Run-cases {ℓ} :
    {A : Type ℓ} (r : Run A)
    → ((a : A) × (r ≡ ok a)) ⊎ (((e : Fault) × (r ≡ fault e)) ⊎ (r ≡ blocked))
Run-cases (ok a) = inl (a, refl)
Run-cases (fault e) = inr (inl (e, refl))
Run-cases blocked = inr (inr refl)

-- Code that changes a state `S`.
abbrev pub Exec {ℓ} : Type ℓ → Type ℓ → Type ℓ
Exec S A = S → Run (A × S)

module _ {ℓ} {S A B : Type ℓ} where
  infixl 5 ◌>>=◌ ◌>>◌
  abbrev pub ◌>>=◌ : Exec S A → (A → Exec S B) → Exec S B
  ◌>>=◌ m f s = elim (m s) [ ok (a, s') ↦ f a s' | fault e ↦ fault e | blocked ↦ blocked ]

  abbrev pub ◌>>◌ : Exec S A → Exec S B → Exec S B
  m >> k = m >>= λ _. k

  -- A chain that returns has a first part that returns.
  pub bind-eq-ok :
      (m : Exec S A) (k : A → Exec S B) (s : S) {b : B × S}
      → (m >>= k) s ≡ ok b
      → (x : A × S) × (m s ≡ ok x) × (k x.0 x.1 ≡ ok b)
  bind-eq-ok m k s {b} = after (m s)
    where
      after :
          (r : Run (A × S))
          → elim r as (λ r. Run (B × S)) [
            | ok (a, s') ↦ k a s'
            | fault e ↦ fault e
            | blocked ↦ blocked
          ]
            ≡ ok b
          → (x : A × S) × (r ≡ ok x) × (k x.0 x.1 ≡ ok b)
      after (ok x) h = (x, refl, h)
      after (fault e) h = cc
      after blocked h = cc

module _ {ℓ} {S A : Type ℓ} where
  abbrev pub pure : A → Exec S A
  pure a s = ok (a, s)

  abbrev pub raise : Fault → Exec S A
  raise e s = fault e

  abbrev pub lift : Run A → Exec S A
  lift (ok a) s = ok (a, s)
  lift (fault e) s = fault e
  lift blocked s = blocked

  abbrev pub gets : (S → A) → Exec S A
  gets f s = ok (f s, s)

abbrev pub modify {ℓ} : {S : Type ℓ} → (S → S) → Exec S Unit
modify f s = ok (tt, f s)

-- A second part that changes nothing wherever the first returns may be left out.
pub bind-idle :
    {S : Type 0} (m k : Exec S (Unit {0})) (s : S)
    → ((t : S) → m s ≡ ok (tt, t) → k t ≡ ok (tt, t))
    → (m >> k) s ≡ m s
bind-idle {S = S} m k s idle = after (m s) idle
  where
    after :
        (r : Run (Unit {0} × S))
        → ((t : S) → r ≡ ok (tt, t) → k t ≡ ok (tt, t))
        → elim r as (λ r. Run (Unit {0} × S)) [
          | ok (a, s') ↦ k s'
          | fault e ↦ fault e
          | blocked ↦ blocked
        ]
          ≡ r
    after (ok (u, t)) idle = idle t refl
    after (fault e) idle = refl
    after blocked idle = refl

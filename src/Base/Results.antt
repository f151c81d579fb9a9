-- ===== src/Base/Results.antt =====
-- The results of Rust code that returns an `Option`, may panic and may loop.
use mathlib.Core.Path.{◌≡◌, refl}
use mathlib.Core.Logic.{◌≢◌}

-- `ok a` is `Some(a)` (or the plain value of a function that has no `None`), `nothing` is `None`,
-- `panic` is a Rust panic, which traps the wasm instance, and `stuck` is no Rust value: a loop ran
-- out of the fuel that the model gives it.
pub data Outcome {ℓ} (A : Type ℓ) : Type ℓ where
  ok : A → Outcome A
  nothing panic stuck : Outcome A

-- Sequencing; on an `Option` in Rust this is `?`.
infixl 5 ◌>>=◌
abbrev pub ◌>>=◌ {ℓ κ} : {A : Type ℓ} {B : Type κ} → Outcome A → (A → Outcome B) → Outcome B
ok a >>= f = f a
nothing >>= f = nothing
panic >>= f = panic
stuck >>= f = stuck

-- Inversion of a successful bind.
pub >>=-eq-ok {ℓ κ} :
    {A : Type ℓ} {B : Type κ} (first : Outcome A) (next : A → Outcome B) {result : B}
    → (first >>= next) ≡ ok result
    → (a : A) × (first ≡ ok a) × (next a ≡ ok result)
>>=-eq-ok (ok a) next e = (a, refl, e)
>>=-eq-ok nothing next e = cc
>>=-eq-ok panic next e = cc
>>=-eq-ok stuck next e = cc

-- A sequence gives the same answer on more input if each of its parts does.
pub >>=_keeps {ℓ κ} :
    {A : Type ℓ} {B : Type κ} (m m' : Outcome A) (f f' : A → Outcome B)
    → (m ≢ nothing → m' ≡ m)
    → ((a : A) → f a ≢ nothing → f' a ≡ f a)
    → (m >>= f) ≢ nothing
    → (m' >>= f') ≡ (m >>= f)
>>=_keeps (ok a) m' f f' h k ne = rw (h (λ e. cc)) (k a ne)
>>=_keeps nothing m' f f' h k ne = absurd (ne refl)
>>=_keeps panic m' f f' h k ne = rw (h (λ e. cc))
>>=_keeps stuck m' f f' h k ne = rw (h (λ e. cc))

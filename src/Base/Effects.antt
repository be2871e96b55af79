-- ===== src/Base/Effects.antt =====
-- Fallible values, and methods that call the outside world, may raise, and change a state. What
-- was done before a raise stays done, so the state comes back beside the error too.
use mathlib.Core.List.{List, ◌∷◌}
use mathlib.Core.Bool.{Bool, true, false}
use mathlib.Core.Path.{◌≡◌, refl}
use mathlib.Core.Logic.{◌⊎◌, inl, inr}

pub data Result (E A : Type 0) : Type 0 where
  ok : A → Result E A
  err : E → Result E A

abbrev pub Exec : Type 0 → Type 0 → Type 0 → Type 0
Exec S E A = S → Result E A × S

module _ {S E A : Type 0} where
  abbrev pub pure : A → Exec S E A
  pure a s = (ok a, s)

  abbrev pub raise : E → Exec S E A
  raise e s = (err e, s)

  abbrev pub lift : Result E A → Exec S E A
  lift r s = (r, s)

  -- `try: body` with the outcome as a value: the handler is a match on it.
  abbrev pub attempt : {F : Type 0} → Exec S E A → Exec S F (Result E A)
  attempt body s = let (r, s') = body s in (ok r, s')

module _ {S E A B : Type 0} where
  abbrev pub and_then : Result E A → (A → Exec S E B) → Exec S E B
  and_then (ok a) f s = f a s
  and_then (err e) f s = (err e, s)

  infixl 5 ◌>>=◌ ◌>>◌
  abbrev pub ◌>>=◌ : Exec S E A → (A → Exec S E B) → Exec S E B
  ◌>>=◌ m f s = let (r, s') = m s in and_then r f s'

  abbrev pub ◌>>◌ : Exec S E A → Exec S E B → Exec S E B
  m >> k = m >>= λ _. k

module _ {S E : Type 0} where
  -- `if not test: raise e`
  abbrev pub require : Bool → E → Exec S E (Unit {0})
  require true e = pure tt
  require false e = raise e

  abbrev pub modify : (S → S) → Exec S E (Unit {0})
  modify f s = (ok tt, f s)

-- A world that answers calls, with a record of the calls that were made, the latest first.
pub record Session (W C : Type 0) : Type 0 where
  pub world : W
  pub calls : List C

-- One call of a port: the world answers and moves on, and the call is recorded, answered or not.
abbrev pub perform : {W C E A : Type 0} → C → Exec W E A → Exec (Session W C) E A
perform call port s = let (r, w) = port s.world in (r, record { world = w; calls = call ∷ s.calls })

-- A sequence that returns: its first part has returned, and the second has finished it.
pub bind-ok :
    {S E A B : Type 0} (m : Exec S E A) (f : A → Exec S E B) (s : S) {b : B}
    → ((m >>= f) s).0 ≡ ok b
    → (a : A) × ((m s).0 ≡ ok a) × ((m >>= f) s ≡ f a (m s).1)
bind-ok {S} {E} {A} {B} m f s {b} = go (m s).0 (m s).1
  where
    go :
        (r : Result E A) (t : S)
        → (and_then r f t).0 ≡ ok b
        → (a : A) × (r ≡ ok a) × (and_then r f t ≡ f a t)
    go (ok a) t h = (a, refl, refl)
    go (err e) t h = absurd (cc h)

-- Every sequence ends in its second part, or in the error of its first.
pub bind-cases :
    {S E A B : Type 0} (m : Exec S E A) (f : A → Exec S E B) (s : S)
    → ((a : A) × ((m s).0 ≡ ok a) × ((m >>= f) s ≡ f a (m s).1))
      ⊎ ((e : E) × ((m s).0 ≡ err e) × ((m >>= f) s ≡ (err e, (m s).1)))
bind-cases {S} {E} {A} {B} m f s = go (m s).0 (m s).1
  where
    go :
        (r : Result E A) (t : S)
        → ((a : A) × (r ≡ ok a) × (and_then r f t ≡ f a t))
          ⊎ ((e : E) × (r ≡ err e) × (and_then r f t ≡ (err e, t)))
    go (ok a) t = inl (a, refl, refl)
    go (err e) t = inr (e, refl, refl)

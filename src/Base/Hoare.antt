-- ===== src/Base/Hoare.antt =====
-- What a method leaves behind, returned or raised: a condition on its value and the state after it,
-- or on the state in which it raised. Conditions pass through a sequence by `bind_rule`.
use mathlib.Core.Path.{◌≡◌, refl, subst}
use mathlib.Core.Bool.{Bool, true, false}
use mathlib.Core.List.{List, ◌∷◌}
use odoo_forge.Base.Tests.{if◌then◌else◌}
use odoo_forge.Base.Effects.{
  Result, ok, err, Exec, pure, raise, attempt, and_then, ◌>>=◌, Session, perform,
}

module _ {S E A : Type 0} where
  abbrev pub After : (A → S → Type 0) → (S → Type 0) → Result E A → S → Type 0
  After Q F (ok a) s = Q a s
  After Q F (err e) s = F s

  -- From a state with `P`, the method returns with `Q` or raises with `F`.
  pub record Hoare (P : S → Type 0) (m : Exec S E A) (Q : A → S → Type 0) (F : S → Type 0)
      : Type 0 where
    pub holds : (s : S) → P s → After Q F (m s).0 (m s).1

  pub returned :
      (Q : A → S → Type 0) (F : S → Type 0) (r : Result E A) (s : S) {a : A}
      → After Q F r s
      → r ≡ ok a
      → Q a s
  returned Q F r s h e = subst (λ r. After Q F r s) e h

module _ {S E A : Type 0} {P : S → Type 0} {Q : A → S → Type 0} {F : S → Type 0} where
  pub pure_rule : (a : A) → ((s : S) → P s → Q a s) → Hoare P (pure {E = E} a) Q F
  pure_rule a step = record { holds = step }

  pub raise_rule : (e : E) → ((s : S) → P s → F s) → Hoare P (raise {A = A} e) Q F
  raise_rule e step = record { holds = step }

  pub if_rule :
      (b : Bool) {m n : Exec S E A}
      → (b ≡ true → Hoare P m Q F)
      → (b ≡ false → Hoare P n Q F)
      → Hoare P (if b then m else n) Q F
  if_rule true yes_ no_ = yes_ refl
  if_rule false yes_ no_ = no_ refl

module _ {S E A B : Type 0} {Q : A → S → Type 0} {R : B → S → Type 0} {F : S → Type 0} where
  then-After :
      {f : A → Exec S E B} (r : Result E A) (t : S)
      → ((a : A) → Hoare (Q a) (f a) R F)
      → After Q F r t
      → After R F (and_then r f t).0 (and_then r f t).1
  then-After (ok a) t rest h = (rest a).holds t h
  then-After (err e) t rest h = h

module _ {S E A B : Type 0} {P : S → Type 0} {Q : A → S → Type 0} {R : B → S → Type 0}
    {F : S → Type 0} where
  pub bind_rule :
      {m : Exec S E A} {f : A → Exec S E B}
      → Hoare P m Q F
      → ((a : A) → Hoare (Q a) (f a) R F)
      → Hoare P (m >>= f) R F
  bind_rule {m} {f} first rest = record {
    holds = λ s p. then-After {f = f} (m s).0 (m s).1 rest (first.holds s p);
  }

-- Conditions on the calls made so far: one call adds itself, answered or not.
module _ {W C E A : Type 0} (P Q F : List C → Type 0) where
  After-call :
      (calls : List C) (r : Result E A) (w : W)
      → Q calls
      → F calls
      → After
          (λ _ (s : Session W C). Q s.calls)
          (λ s. F s.calls)
          r
          (record { world = w; calls = calls })
  After-call calls (ok a) w q f = q
  After-call calls (err e) w q f = f

  pub perform_rule :
      (call : C) (port : Exec W E A)
      → ((calls : List C) → P calls → Q (call ∷ calls) × F (call ∷ calls))
      → Hoare (λ s. P s.calls) (perform call port) (λ _ s. Q s.calls) (λ s. F s.calls)
  perform_rule call port step = record {
    holds = λ s p.
        After-call (call ∷ s.calls) (port s.world).0 (port s.world).1 (step s.calls p).0
          (step s.calls p).1;
  }

module _ {S E A : Type 0} where
  After-attempt :
      (G : Type 0) (Q F : S → Type 0) (r : Result E A) (s : S)
      → After (λ _. Q) Q r s
      → After {E = G} {A = Result E A} (λ _. Q) F (ok r) s
  After-attempt G Q F (ok a) s h = h
  After-attempt G Q F (err e) s h = h

  -- Whichever way the body ends, the handler goes on.
  pub attempt_rule :
      {G : Type 0} {P Q F : S → Type 0} {m : Exec S E A}
      → Hoare P m (λ _. Q) Q
      → Hoare {E = G} P (attempt m) (λ _. Q) F
  attempt_rule {G} {P} {Q} {F} {m} body = record {
    holds = λ s p. After-attempt G Q F (m s).0 (m s).1 (body.holds s p);
  }

module _ {S E A : Type 0} {P P' : S → Type 0} {Q : A → S → Type 0} {F : S → Type 0} where
  pub weaken_rule : {m : Exec S E A} → ((s : S) → P' s → P s) → Hoare P m Q F → Hoare P' m Q F
  weaken_rule weaker h = record { holds = λ s p. h.holds s (weaker s p) }

module _ {S E A : Type 0} {Q Q' : A → S → Type 0} where
  After-weaker :
      (F : S → Type 0) (r : Result E A) (s : S)
      → ((a : A) (s : S) → Q a s → Q' a s)
      → After Q F r s
      → After Q' F r s
  After-weaker F (ok a) s weaker h = weaker a s h
  After-weaker F (err e) s weaker h = h

  pub weaken_post :
      {P F : S → Type 0} {m : Exec S E A}
      → ((a : A) (s : S) → Q a s → Q' a s)
      → Hoare P m Q F
      → Hoare P m Q' F
  weaken_post {P} {F} {m} weaker h = record {
    holds = λ s p. After-weaker F (m s).0 (m s).1 weaker (h.holds s p);
  }

module _ {S E A : Type 0} {P : S → Type 0} {Q : A → S → Type 0} {F : S → Type 0} where
  -- The outcome of the body as a value.
  pub attempt_cases :
      {G : Type 0} {H : S → Type 0} {m : Exec S E A}
      → Hoare P m Q F
      → Hoare {E = G} P (attempt m) (After Q F) H
  attempt_cases body = record { holds = λ s p. body.holds s p }

-- A fact that was established stays known while a method runs.
pub framed :
    {S E A : Type 0} {m : Exec S E A} {P F : S → Type 0} {R : A → S → Type 0} {K : Type 0}
    → (K → Hoare P m R F)
    → Hoare (λ s. K × P s) m R F
framed rest = record { holds = λ s h. (rest h.0).holds s h.1 }

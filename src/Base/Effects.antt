-- ===== src/Base/Effects.antt =====
-- Code with effects: an action takes the state of the world outside the driver, and returns the
-- new state with its result. What was done before an error or a panic stays done.
use mathlib.Core.Bool.{Bool, true, false}
use mathlib.Core.Path.{◌≡◌, refl, ap, ◌∙◌, sym, subst}
use native.Mathlib.Omega.{arith}
use exoscale_csi_driver.Base.Tests.{if◌then◌else◌, Bool-cases}
use mathlib.Core.Logic.{inl, inr}
use exoscale_csi_driver.Base.Errors.{Error, Result, ok, err, panic}

abbrev pub Action : Type 0 → Type 0 → Type 0
Action W A = W → Result A × W

module _ {W A : Type 0} where
  abbrev pub pure : A → Action W A
  pure a w = (ok a, w)

  abbrev pub fail : Error → Action W A
  fail e w = (err e, w)

  abbrev pub lift : Result A → Action W A
  lift r w = (r, w)

module _ {W A B : Type 0} where
  -- The rest of the block, by the result of its first action.
  abbrev pub proceed : (A → Action W B) → (Error → Action W B) → Result A → Action W B
  proceed f g (ok a) w = f a w
  proceed f g (err e) w = g e w
  proceed f g (panic p) w = (panic p, w)

  -- `a, err := m; if err != nil { g }; f`
  abbrev pub handle : Action W A → (Error → Action W B) → (A → Action W B) → Action W B
  handle m g f w = proceed f g (m w).0 (m w).1

  infixl 5 ◌>>=◌ ◌>>◌
  -- The usual `if err != nil { return nil, err }`.
  abbrev pub ◌>>=◌ : Action W A → (A → Action W B) → Action W B
  m >>= f = handle m fail f

  abbrev pub ◌>>◌ : Action W A → Action W B → Action W B
  m >> n = handle m fail (λ _. n)

-- An error is replaced by another one, as `if err != nil { return nil, g(err) }` does.
abbrev pub or_else : {W A : Type 0} → Action W A → (Error → Error) → Action W A
or_else m g = handle m (λ e. fail (g e)) pure

-- A call with a handler that returns has returned, or its error was handled.
pub handle-ok_elim :
    {W A B C : Type 0} (m : Action W A) (g : Error → Action W B) (f : A → Action W B) (w : W)
    {b : B} {w' : W}
    → handle m g f w ≡ (ok b, w')
    → ((a : A) (w₁ : W) → m w ≡ (ok a, w₁) → f a w₁ ≡ (ok b, w') → C)
    → ((e : Error) (w₁ : W) → m w ≡ (err e, w₁) → g e w₁ ≡ (ok b, w') → C)
    → C
handle-ok_elim {W} {A} {C = C} m g f w {b} {w'} h k l = go (m w).0 (m w).1 refl refl h
  where
    go : (r : Result A) (w₁ : W) → (m w).0 ≡ r → (m w).1 ≡ w₁ → proceed f g r w₁ ≡ (ok b, w') → C
    go (ok a) w₁ e e₁ p = k a w₁ (ground (arith, e, e₁)) p
    go (err x) w₁ e e₁ p = l x w₁ (ground (arith, e, e₁)) p
    go (panic x) w₁ e e₁ p = absurd (cc p)

-- A sequence that returns has returned at each step.
pub >>=-ok_elim :
    {W A B C : Type 0} (m : Action W A) (f : A → Action W B) (w : W) {b : B} {w' : W}
    → (m >>= f) w ≡ (ok b, w')
    → ((a : A) (w₁ : W) → m w ≡ (ok a, w₁) → f a w₁ ≡ (ok b, w') → C)
    → C
>>=-ok_elim m f w h k = handle-ok_elim m fail f w h k (λ e w₁ _ p. absurd (cc p))

pub or_else-ok_elim :
    {W T C : Type 0} (m : Action W T) (g : Error → Error) (w : W) {b : T} {w' : W}
    → or_else m g w ≡ (ok b, w')
    → (m w ≡ (ok b, w') → C)
    → C
or_else-ok_elim m g w h k =
    handle-ok_elim m (λ e. fail (g e)) pure w h (λ a w₁ e p. k (e ∙ p)) (λ e w₁ _ p. absurd (cc p))

pub lift-ok_elim :
    {W A B C : Type 0} (r : Result A) (f : A → Action W B) (w : W) {b : B} {w' : W}
    → (lift r >>= f) w ≡ (ok b, w')
    → ((a : A) → r ≡ ok a → f a w ≡ (ok b, w') → C)
    → C
lift-ok_elim (ok a) f w h k = k a refl h
lift-ok_elim (err x) f w h k = absurd (cc h)
lift-ok_elim (panic x) f w h k = absurd (cc h)

-- A step that leaves the state alone, before one that does so too.
pub handle-keeps :
    {W A B : Type 0} (m : Action W A) (g : Error → Action W B) (f : A → Action W B) (w : W)
    → (m w).1 ≡ w
    → ((e : Error) → (g e w).1 ≡ w)
    → ((a : A) → (f a w).1 ≡ w)
    → (handle m g f w).1 ≡ w
handle-keeps {W} {A} m g f w hm hg hf = go (m w).0 (m w).1 hm
  where
    go : (r : Result A) (w₁ : W) → w₁ ≡ w → (proceed f g r w₁).1 ≡ w
    go (ok a) w₁ e = rw e (hf a)
    go (err x) w₁ e = rw e (hg x)
    go (panic x) w₁ e = e

-- The state behind a step that leaves it alone, if the rest has the property then.
pub handle-state :
    {W A B : Type 0} (P : W → Type 0) (m : Action W A) (f : A → Action W B) (w : W)
    → (m w).1 ≡ w
    → P w
    → ((a : A) → P (f a w).1)
    → P ((m >>= f) w).1
handle-state {W} {A} P m f w keeps p q = go (m w).0 (m w).1 keeps
  where
    go : (r : Result A) (w₁ : W) → w₁ ≡ w → P (proceed f fail r w₁).1
    go (ok a) w₁ e = subst (λ t. P (f a t).1) (sym e) (q a)
    go (err x) w₁ e = subst P (sym e) p
    go (panic x) w₁ e = subst P (sym e) p

-- The state behind two calls depends on no handler and no rest that leaves it alone.
pub handle-state_of_rest :
    {W A B C : Type 0} (m : Action W A) (g : Error → Action W C) (f : A → Action W C)
    (n : A → Action W B) (w : W)
    → ((e : Error) (w₁ : W) → (g e w₁).1 ≡ w₁)
    → ((a : A) (w₁ : W) → (f a w₁).1 ≡ (n a w₁).1)
    → (handle m g f w).1 ≡ ((m >>= n) w).1
handle-state_of_rest {W} {A} m g f n w hg hf = go (m w).0 (m w).1
  where
    go : (r : Result A) (w₁ : W) → (proceed f g r w₁).1 ≡ (proceed n fail r w₁).1
    go (ok a) w₁ = hf a w₁
    go (err x) w₁ = hg x w₁
    go (panic x) w₁ = refl

pub >>=-keeps_state :
    {W A B : Type 0} (m : Action W A) (f : A → Action W B) (w : W)
    → ((a : A) (w₁ : W) → (f a w₁).1 ≡ w₁)
    → ((m >>= f) w).1 ≡ (m w).1
>>=-keeps_state {W} {A} m f w hf = go (m w).0 (m w).1
  where
    go : (r : Result A) (w₁ : W) → (proceed f fail r w₁).1 ≡ w₁
    go (ok a) w₁ = hf a w₁
    go (err x) w₁ = refl
    go (panic x) w₁ = refl

-- A call that is waited for, and whose error of one kind counts as success: what holds behind the
-- wait and behind that error holds when the whole has returned.
pub tolerant-ok_elim :
    {W A B : Type 0} (P : W → Type 0) (m : Action W A) (n : A → Action W B) (b : Error → Bool)
    (w : W) {w' : W}
    → handle m (λ e. if b e then pure tt else fail e) (λ a. n a >>= (λ _. pure tt)) w
      ≡ (ok (record {}), w')
    → ((a : A) (c : B) (w₁ w₂ : W) → m w ≡ (ok a, w₁) → n a w₁ ≡ (ok c, w₂) → P w₂)
    → ((e : Error) (w₁ : W) → m w ≡ (err e, w₁) → b e ≡ true → P w₁)
    → P w'
tolerant-ok_elim P m n b w {w'} h k l =
    handle-ok_elim m (λ e. if b e then pure tt else fail e) (λ a. n a >>= (λ _. pure tt)) w h
      (λ a w₁ called h₁.
        >>=-ok_elim (n a) (λ _. pure tt) w₁ h₁
          λ c w₂ waited e. subst P (ap (λ p. p.1) e) (k a c w₁ w₂ called waited))
      (λ e w₁ refused h₁. elim (Bool-cases (b e)) [
        | inl kind ↦ subst P (ap (λ p. p.1) (rw kind at h₁)) (l e w₁ refused kind)
        | inr other ↦ absurd (cc (rw other at h₁))
      ])

-- What each step keeps, the whole keeps.
pub handle-invariant :
    {W A B : Type 0} (P : W → Type 0) (m : Action W A) (g : Error → Action W B) (f : A → Action W B)
    (w : W)
    → P (m w).1
    → ((e : Error) (w₁ : W) → P w₁ → P (g e w₁).1)
    → ((a : A) (w₁ : W) → P w₁ → P (f a w₁).1)
    → P (handle m g f w).1
handle-invariant {W} {A} P m g f w hm hg hf = go (m w).0 (m w).1 hm
  where
    go : (r : Result A) (w₁ : W) → P w₁ → P (proceed f g r w₁).1
    go (ok a) w₁ p = hf a w₁ p
    go (err x) w₁ p = hg x w₁ p
    go (panic x) w₁ p = p

-- A handler that takes errors of one kind for a success changes nothing.
pub tolerate-keeps :
    {W : Type 0} (b : Bool) (e : Error) (w : W) → ((if b then pure {W = W} tt else fail e) w).1 ≡ w
tolerate-keeps true e w = refl
tolerate-keeps false e w = refl

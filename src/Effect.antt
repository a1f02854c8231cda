-- ===== src/Effect.antt =====
-- Stateful code: a call takes a state, and returns a value and a new state. `none` is a call that
-- does not return: an exception that nothing catches, an abort, or undefined behaviour.
use ip2unix.Base.{Bool, Option, false, if_cases, if◌then◌else◌, none, refl, some, true, ◌≡◌}

abbrev pub Effect : Type 0 → Type 0 → Type 0
Effect W A = W → Option (A × W)

abbrev pub pure : {W A : Type 0} → A → Effect W A
pure a w = some (a, w)

abbrev pub fault : {W A : Type 0} → Effect W A
fault w = none

infixl 5 ◌>>=◌ ◌>>◌
abbrev pub ◌>>=◌ : {W A B : Type 0} → Effect W A → (A → Effect W B) → Effect W B
◌>>=◌ m f w = elim (m w) [ none ↦ none | some (a, w') ↦ f a w' ]

abbrev pub ◌>>◌ : {W B : Type 0} → Effect W (Unit {0}) → Effect W B → Effect W B
m >> k = m >>= λ _. k

abbrev pub gets : {W A : Type 0} → (W → A) → Effect W A
gets f w = some (f w, w)

abbrev pub modify : {W : Type 0} → (W → W) → Effect W (Unit {0})
modify f w = some (tt, f w)

-- `.value()` of an optional that is tested before, or `*` of one that is not.
abbrev pub value_of : {W A : Type 0} → Option A → Effect W A
value_of none w = none
value_of (some a) w = some (a, w)

-- A postcondition on the calls that return.
abbrev pub Ensures : {W A : Type 0} → (A → W → Type 0) → Option (A × W) → Type 0
Ensures Q none = Unit
Ensures Q (some (a, w)) = Q a w

module _ {W A B : Type 0} where
  pub >>=-Ensures :
      (P : A → W → Type 0) (Q : B → W → Type 0) (m : Effect W A) (f : A → Effect W B) (w : W)
      → Ensures P (m w)
      → ((a : A) (w' : W) → P a w' → Ensures Q (f a w'))
      → Ensures Q ((m >>= f) w)
  >>=-Ensures P Q m f w h k = bound (m w) h
    where
      bound :
          (r : Option (A × W))
          → Ensures P r
          → Ensures Q (elim r [ none ↦ none | some (a, w') ↦ f a w' ])
      bound none h = tt
      bound (some (a, w')) h = k a w' h

-- The same, where a call that does not return is a failure.
abbrev pub Returns : {W A : Type 0} → (A → W → Type 0) → Option (A × W) → Type 0
Returns Q none = ⊥
Returns Q (some (a, w)) = Q a w

module _ {W A B : Type 0} where
  pub >>=-Returns :
      (P : A → W → Type 0) (Q : B → W → Type 0) (m : Effect W A) (f : A → Effect W B) (w : W)
      → Returns P (m w)
      → ((a : A) (w' : W) → P a w' → Returns Q (f a w'))
      → Returns Q ((m >>= f) w)
  >>=-Returns P Q m f w h k = bound (m w) h
    where
      bound :
          (r : Option (A × W))
          → Returns P r
          → Returns Q (elim r [ none ↦ none | some (a, w') ↦ f a w' ])
      bound none h = absurd h
      bound (some (a, w')) h = k a w' h

pub Returns→Ensures :
    {W A : Type 0} (Q : A → W → Type 0) (r : Option (A × W)) → Returns Q r → Ensures Q r
Returns→Ensures Q none h = tt
Returns→Ensures Q (some (a, w)) h = h

pub any_Ensures : {W A : Type 0} (r : Option (A × W)) → Ensures (λ _ _. Unit {0}) r
any_Ensures none = tt
any_Ensures (some (a, w)) = tt

pub weaken_Ensures :
    {W A : Type 0} (P Q : A → W → Type 0) (r : Option (A × W))
    → ((a : A) (w : W) → P a w → Q a w)
    → Ensures P r
    → Ensures Q r
weaken_Ensures P Q none k h = tt
weaken_Ensures P Q (some (a, w)) k h = k a w h

pub weaken_Returns :
    {W A : Type 0} (P Q : A → W → Type 0) (r : Option (A × W))
    → ((a : A) (w : W) → P a w → Q a w)
    → Returns P r
    → Returns Q r
weaken_Returns P Q none k h = h
weaken_Returns P Q (some (a, w)) k h = k a w h

-- The rules for the two ways to branch.
module _ {W A B : Type 0} (Q : B → W → Type 0) (w : W) where
  pub elim_Ensures :
      (o : Option A) (m : Effect W B) (f : A → Effect W B)
      → (o ≡ none → Ensures Q (m w))
      → ((a : A) → o ≡ some a → Ensures Q (f a w))
      → Ensures Q ((elim o as (λ _. Effect W B) [ none ↦ m | some a ↦ f a ]) w)
  elim_Ensures none m f h k = h refl
  elim_Ensures (some a) m f h k = k a refl

module _ {W B : Type 0} (Q : B → W → Type 0) (w : W) where
  pub if_Ensures :
      (b : Bool) (m n : Effect W B)
      → (b ≡ true → Ensures Q (m w))
      → (b ≡ false → Ensures Q (n w))
      → Ensures Q ((if b then m else n) w)
  if_Ensures b m n h k = if_cases (λ (e : Effect W B). Ensures Q (e w)) b m n h k

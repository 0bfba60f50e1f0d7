-- ===== src/Base/Outcome.antt =====
-- What a call that may throw gives back: `throw e` stands for a rejected promise or a thrown error.
use mathlib.Core.Path.{◌≡◌, refl, sym, subst}
use mathlib.Core.List.{List, [], ◌∷◌}
use mathlib.Core.Logic.{◌↔◌}
use mathlib.Core.Bool.{Bool, true, false}
use Prim.Native.String.{String}
use native.Mathlib.Omega.{arith}
use duniter.Base.Lists.{All}

pub data Outcome {ℓ} (A : Type ℓ) : Type ℓ where
  done : A → Outcome A
  throw : String → Outcome A

infixl 5 ◌>>=◌ ◌>>◌
abbrev pub ◌>>=◌ {ℓ κ} : {A : Type ℓ} {B : Type κ} → Outcome A → (A → Outcome B) → Outcome B
done a >>= f = f a
throw e >>= f = throw e

abbrev pub ◌>>◌ {ℓ} : {B : Type ℓ} → Outcome (Unit {0}) → Outcome B → Outcome B
m >> k = m >>= λ _. k

-- `if (!test) throw Error(message)`
abbrev pub require : Bool → String → Outcome (Unit {0})
require true e = done tt
require false e = throw e

abbrev pub Succeeds {ℓ} : {A : Type ℓ} → Outcome A → Type 0
Succeeds (done a) = Unit
Succeeds (throw e) = ⊥

pub Succeeds-require : (b : Bool) (e : String) → Succeeds (require b e) ↔ (b ≡ true)
Succeeds-require true e = (λ _. refl, λ _. tt)
Succeeds-require false e = ground arith

pub Succeeds->> :
    {B : Type 0} (m : Outcome (Unit {0})) (k : Outcome B)
    → Succeeds (m >> k) ↔ (Succeeds m × Succeeds k)
Succeeds->> (done a) k = (λ h. (tt, h), λ h. h.1)
Succeeds->> (throw e) k = (λ h. absurd h, λ h. absurd h.0)

-- Inversion of a chain that succeeds.
pub >>=-eq-done {ℓ κ} :
    {A : Type ℓ} {B : Type κ} (m : Outcome A) (f : A → Outcome B) {b : B}
    → (m >>= f) ≡ done b
    → (a : A) × (m ≡ done a) × (f a ≡ done b)
>>=-eq-done (done a) f h = (a, refl, h)
>>=-eq-done (throw e) f h = absurd (cc)

-- `await Promise.all(rows.map(f))`: the results in order, or the first error.
unfoldable pub map_all : {A B : Type 0} → (A → Outcome B) → List A → Outcome (List B)
map_all f [] = done []
map_all f (x ∷ xs) = let rest = map_all f xs in f x >>= λ y. rest >>= λ ys. done (y ∷ ys)

-- Each result of a `map_all` is the one of its row.
pub map_all-eq-done :
    {A B : Type 0} (P : B → Type 0) (f : A → Outcome B) (xs : List A) (ys : List B)
    → map_all f xs ≡ done ys
    → All P ys
    → All (λ x. (y : B) × (f x ≡ done y) × P y) xs
unfolding map_all
map_all-eq-done P f [] ys h p = tt
map_all-eq-done P f (x ∷ xs) ys h p =
    let first = >>=-eq-done (f x) _ h in
    let later = >>=-eq-done (map_all f xs) _ first.2 in
    let same : first.0 ∷ later.0 ≡ ys = cc (later.2) in
    let q : All P (first.0 ∷ later.0) = subst (All P) (sym same) p in
    ((first.0, first.1, q.0), map_all-eq-done P f xs later.0 later.1 q.1)

-- ===== src/Base/Updates.antt =====
-- Reading a list after a write.
use Prim.Native.Nat.{ℕ, zero, suc, ◌<◌}
use mathlib.Core.Path.{◌≡◌, refl, ap}
use mathlib.Core.Logic.{◌≢◌}
use mathlib.Core.List.{List, [], ◌∷◌}
use mathlib.Core.Option.{some}
use native.Mathlib.Omega.{arith}
use mandible.Base.Lists.{length, get_elem?, set}

pub get_elem?-set :
    {A : Type 0} (xs : List A) (i : ℕ) (x v : A)
    → get_elem? xs i ≡ some x
    → get_elem? (set xs i v) i ≡ some v
get_elem?-set [] i x v h = absurd (cc)
get_elem?-set (y ∷ xs) zero x v h = refl
get_elem?-set (y ∷ xs) (suc i) x v h = get_elem?-set xs i x v h

pub get_elem?-set_other :
    {A : Type 0} (xs : List A) (i k : ℕ) (v : A) → i ≢ k → get_elem? (set xs i v) k ≡ get_elem? xs k
get_elem?-set_other [] i k v n = refl
get_elem?-set_other (y ∷ xs) zero zero v n = absurd (n refl)
get_elem?-set_other (y ∷ xs) zero (suc k) v n = refl
get_elem?-set_other (y ∷ xs) (suc i) zero v n = refl
get_elem?-set_other (y ∷ xs) (suc i) (suc k) v n = get_elem?-set_other xs i k v (λ e. n (ap suc e))

pub get_elem?-set_self :
    {A : Type 0} (xs : List A) (i : ℕ) (v : A) → i < length xs → get_elem? (set xs i v) i ≡ some v
get_elem?-set_self [] i v h = elim h [ ]
get_elem?-set_self (x ∷ xs) zero v h = refl
get_elem?-set_self (x ∷ xs) (suc i) v h = get_elem?-set_self xs i v (omega arith)

pub length-set : {A : Type 0} (xs : List A) (i : ℕ) (v : A) → length (set xs i v) ≡ length xs
length-set [] i v = refl
length-set (x ∷ xs) zero v = refl
length-set (x ∷ xs) (suc i) v = ap suc (length-set xs i v)

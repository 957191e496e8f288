-- ===== src/Base/Order.antt =====
-- Tests on lists do not depend on the order of the elements.
use mathlib.Core.Path.{◌≡◌, refl, ap, ◌∙◌}
use mathlib.Core.Logic.{∥∥₁_elim}
use mathlib.Core.Bool.{Bool, Bool-discrete}
use mathlib.Core.HLevel.{hedberg}
use mathlib.Core.List.{List, Perm, Permᴰ}
use native.Mathlib.Omega.{arith}
use mandible.Base.Lists.{any, all}

module _ {A : Type 0} (p : A → Bool) where
  any-Permᴰ : {xs ys : List A} → Permᴰ xs ys → any p xs ≡ any p ys
  any-Permᴰ Permᴰ.nil = refl
  any-Permᴰ (Permᴰ.cons e h) = cc (ap p e, any-Permᴰ h)
  any-Permᴰ (Permᴰ.swap e f) = ground (arith, ap p e, ap p f)
  any-Permᴰ (Permᴰ.trans h k) = any-Permᴰ h ∙ any-Permᴰ k

  all-Permᴰ : {xs ys : List A} → Permᴰ xs ys → all p xs ≡ all p ys
  all-Permᴰ Permᴰ.nil = refl
  all-Permᴰ (Permᴰ.cons e h) = cc (ap p e, all-Permᴰ h)
  all-Permᴰ (Permᴰ.swap e f) = ground (arith, ap p e, ap p f)
  all-Permᴰ (Permᴰ.trans h k) = all-Permᴰ h ∙ all-Permᴰ k

  pub any-Perm : {xs ys : List A} → Perm xs ys → any p xs ≡ any p ys
  any-Perm h = ∥∥₁_elim h (hedberg Bool-discrete _ _) any-Permᴰ

  pub all-Perm : {xs ys : List A} → Perm xs ys → all p xs ≡ all p ys
  all-Perm h = ∥∥₁_elim h (hedberg Bool-discrete _ _) all-Permᴰ

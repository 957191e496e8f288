-- ===== src/Base/Permuted.antt =====
-- Predicates on the elements of a list that has been put in another order.
use Prim.Native.Nat.{suc}
use mathlib.Core.Path.{◌≡◌, refl, ap, ◌∙◌, sym, subst}
use mathlib.Core.Logic.{◌⊎◌, inl, inr}
use mathlib.Core.List.{List, [], ◌∷◌, ◌++◌, Permᴰ, map, append_assoc}
use mathlib.Core.List.Permᴰ
use native.Mathlib.Omega.{arith}
use mandible.Base.Lists.{All, length}

-- Some element satisfies the predicate.
abbrev pub Some : {A : Type 0} → (A → Type 0) → List A → Type 0
Some P [] = ⊥
Some P (x ∷ xs) = P x ⊎ Some P xs

module _ {A : Type 0} (P : A → Type 0) where
  pub All-Permᴰ : {xs ys : List A} → Permᴰ xs ys → All P ys → All P xs
  All-Permᴰ Permᴰ.nil h = h
  All-Permᴰ (Permᴰ.cons e p) (h, k) = (subst P (sym e) h, All-Permᴰ p k)
  All-Permᴰ (Permᴰ.swap e f) (h, (k, l)) = (subst P (sym e) k, (subst P (sym f) h, l))
  All-Permᴰ (Permᴰ.trans p q) h = All-Permᴰ p (All-Permᴰ q h)

  pub Some-Permᴰ : {xs ys : List A} → Permᴰ xs ys → Some P ys → Some P xs
  Some-Permᴰ Permᴰ.nil h = h
  Some-Permᴰ (Permᴰ.cons e p) (inl h) = inl (subst P (sym e) h)
  Some-Permᴰ (Permᴰ.cons e p) (inr h) = inr (Some-Permᴰ p h)
  Some-Permᴰ (Permᴰ.swap e f) (inl h) = inr (inl (subst P (sym f) h))
  Some-Permᴰ (Permᴰ.swap e f) (inr (inl h)) = inl (subst P (sym e) h)
  Some-Permᴰ (Permᴰ.swap e f) (inr (inr h)) = inr (inr h)
  Some-Permᴰ (Permᴰ.trans p q) h = Some-Permᴰ p (Some-Permᴰ q h)

pub length-Permᴰ : {A : Type 0} {xs ys : List A} → Permᴰ xs ys → length xs ≡ length ys
length-Permᴰ Permᴰ.nil = refl
length-Permᴰ (Permᴰ.cons e p) = ap suc (length-Permᴰ p)
length-Permᴰ (Permᴰ.swap e f) = refl
length-Permᴰ (Permᴰ.trans p q) = length-Permᴰ p ∙ length-Permᴰ q

-- A list that has been put in another order after a map is a map of the list in another order.
pub unmap-Permᴰ :
    {A B : Type 0} (f : A → B) {ys zs : List B}
    → Permᴰ ys zs
    → (xs : List A) → zs ≡ map f xs
    → (xs' : List A) × Permᴰ xs' xs × (ys ≡ map f xs')
unmap-Permᴰ f Permᴰ.nil xs e = (xs, Permᴰ.refl xs, e)
unmap-Permᴰ f (Permᴰ.cons a p) [] e = absurd (cc)
unmap-Permᴰ f (Permᴰ.cons a p) (x ∷ xs) e =
    let (xs', q, g) = unmap-Permᴰ f p xs (ground (arith, e)) in
    (x ∷ xs', Permᴰ.cons refl q, ground (arith, e, a, g))
unmap-Permᴰ f (Permᴰ.swap a b) [] e = absurd (cc)
unmap-Permᴰ f (Permᴰ.swap a b) (x ∷ []) e = absurd (cc)
unmap-Permᴰ f (Permᴰ.swap a b) (x ∷ y ∷ xs) e =
    (y ∷ x ∷ xs, Permᴰ.swap refl refl, ground (arith, e, a, b))
unmap-Permᴰ f (Permᴰ.trans p q) xs e =
    let (xs₁, p₁, e₁) = unmap-Permᴰ f q xs e in
    let (xs₂, p₂, e₂) = unmap-Permᴰ f p xs₁ e₁ in (xs₂, Permᴰ.trans p₂ p₁, e₂)

-- Taking an element out of the second of two lists, to the end of the first.
pub moved :
    {A : Type 0} (xs pre post : List A) (x : A)
    → Permᴰ (xs ++ (x ∷ []) ++ (pre ++ post)) (xs ++ (pre ++ (x ∷ post)))
moved xs pre post x =
    subst (λ l. Permᴰ l (xs ++ (pre ++ (x ∷ post)))) (sym (append_assoc xs (x ∷ []) (pre ++ post)))
      (Permᴰ.append_left xs (Permᴰ.symm (Permᴰ.middle x pre post)))

-- The same, past a list between the two.
pub moved_past :
    {A : Type 0} (xs ys pre post : List A) (x : A)
    → Permᴰ (xs ++ (x ∷ []) ++ (ys ++ (pre ++ post))) (xs ++ (ys ++ (pre ++ (x ∷ post))))
moved_past xs ys pre post x =
    rw (← append_assoc ys pre post, ← append_assoc ys pre (x ∷ post)) (moved xs (ys ++ pre) post x)

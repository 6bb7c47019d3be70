-- ===== src/Common/Indices.antt =====
-- Loops that first collect the indices of some elements and then visit them in place, and the one
-- pass over the list that each amounts to.
use Prim.Native.Nat.{ℕ, zero, suc}
use mathlib.Core.Path.{◌≡◌, refl}
use mathlib.Core.Logic.{inl, inr}
use mathlib.Core.Bool.{Bool, true, false, not}
use mathlib.Core.List.{List, [], ◌∷◌, map}
use native.Mathlib.Omega.{arith}
use scim_server.Common.Tests.{if◌then◌else◌, Bool-cases}
use scim_server.Common.Lists.{keep, any}

module _ {ℓ} {A : Type ℓ} where
  -- `for (index, item) in v.iter().enumerate() { if p(item) { indices.push(index) } }`
  unfoldable pub indices : (A → Bool) → ℕ → List A → List ℕ
  indices p i [] = []
  indices p i (v ∷ vs) = let rest = indices p (suc i) vs in if p v then i ∷ rest else rest

  -- `v[i] = f(v[i])`
  unfoldable pub update_at : (A → A) → ℕ → List A → List A
  update_at f i [] = []
  update_at f zero (v ∷ vs) = f v ∷ vs
  update_at f (suc i) (v ∷ vs) = v ∷ update_at f i vs

  -- `for &i in &indices { v[i] = f(v[i]) }`
  unfoldable pub update_each : (A → A) → List ℕ → List A → List A
  unfolding update_at
  update_each f [] vs = vs
  update_each f (i ∷ is) vs = update_each f is (update_at f i vs)

  -- `v.remove(i)`
  unfoldable pub remove_at : ℕ → List A → List A
  remove_at i [] = []
  remove_at zero (v ∷ vs) = vs
  remove_at (suc i) (v ∷ vs) = v ∷ remove_at i vs

  -- `for &i in indices.iter().rev() { v.remove(i) }`: the last index comes first.
  unfoldable pub remove_each_rev : List ℕ → List A → List A
  unfolding remove_at
  remove_each_rev [] vs = vs
  remove_each_rev (i ∷ is) vs = remove_at i (remove_each_rev is vs)

  -- `f` where `p` holds.
  abbrev pub where_holds : (A → Bool) → (A → A) → A → A
  where_holds p f v = if p v then f v else v

  pub indices-suc :
      (p : A → Bool) (i : ℕ) (vs : List A) → indices p (suc i) vs ≡ map suc (indices p i vs)
  unfolding indices
  indices-suc p i [] = refl
  indices-suc p i (v ∷ vs) = ground (arith, indices-suc p (suc i) vs)

  pub update_each-suc :
      (f : A → A) (is : List ℕ) (v : A) (vs : List A)
      → update_each f (map suc is) (v ∷ vs) ≡ v ∷ update_each f is vs
  unfolding update_each
  update_each-suc f [] v vs = refl
  update_each-suc f (i ∷ is) v vs = update_each-suc f is v (update_at f i vs)

  remove_each_rev-suc :
      (is : List ℕ) (v : A) (vs : List A)
      → remove_each_rev (map suc is) (v ∷ vs) ≡ v ∷ remove_each_rev is vs
  unfolding remove_each_rev
  remove_each_rev-suc [] v vs = refl
  remove_each_rev-suc (i ∷ is) v vs = rw (remove_each_rev-suc is v vs)

  pub update_each-shift :
      (p : A → Bool) (f : A → A) (v : A) (vs : List A)
      → update_each f (indices p 1 vs) (v ∷ vs) ≡ v ∷ update_each f (indices p 0 vs) vs
  update_each-shift p f v vs = rw (indices-suc p 0 vs) (update_each-suc f (indices p 0 vs) v vs)

  remove_each_rev-shift :
      (p : A → Bool) (v : A) (vs : List A)
      → remove_each_rev (indices p 1 vs) (v ∷ vs) ≡ v ∷ remove_each_rev (indices p 0 vs) vs
  remove_each_rev-shift p v vs = rw (indices-suc p 0 vs) (remove_each_rev-suc (indices p 0 vs) v vs)

  -- Updating at the indices of the elements that satisfy `p` is a map.
  pub update_each-indices :
      (p : A → Bool) (f : A → A) (vs : List A)
      → update_each f (indices p 0 vs) vs ≡ map (where_holds p f) vs
  unfolding update_each indices
  update_each-indices p f [] = refl
  update_each-indices p f (v ∷ vs) = ground (
    arith,
    update_each-shift p f v vs,
    update_each-shift p f (f v) vs,
    update_each-indices p f vs,
  )

  -- Removing at the indices of the elements that satisfy `p` is a filter.
  pub remove_each_rev-indices :
      (p : A → Bool) (vs : List A) → remove_each_rev (indices p 0 vs) vs ≡ keep (λ v. not (p v)) vs
  unfolding remove_each_rev indices
  remove_each_rev-indices p [] = refl
  remove_each_rev-indices p (v ∷ vs) =
      ground (arith, remove_each_rev-shift p v vs, remove_each_rev-indices p vs)

  pub indices_none : (p : A → Bool) (i : ℕ) (vs : List A) → any p vs ≡ false → indices p i vs ≡ []
  unfolding indices
  indices_none p i [] h = refl
  indices_none p i (v ∷ vs) h = ground (arith, indices_none p (suc i) vs)

  pub indices_some :
      (p : A → Bool) (i : ℕ) (vs : List A)
      → any p vs ≡ true
      → (j : ℕ) × (js : List ℕ) × (indices p i vs ≡ j ∷ js)
  unfolding indices
  indices_some p i [] h = cc
  indices_some p i (v ∷ vs) h = elim (Bool-cases (p v)) [
    | inl y ↦ rw y (i, indices p (suc i) vs, refl)
    | inr n ↦ rw n (indices_some p (suc i) vs (ground arith))
  ]

  pub map_same {κ} :
      {B : Type κ} (f g : A → B) → ((x : A) → f x ≡ g x) → (xs : List A) → map f xs ≡ map g xs
  map_same f g h [] = refl
  map_same f g h (x ∷ xs) = ground (arith, h x, map_same f g h xs)

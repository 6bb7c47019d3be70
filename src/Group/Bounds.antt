-- ===== src/Group/Bounds.antt =====
-- The pages of a listing: how long they are, and that they follow on one another.
use scim_server.Common.{
  ℕ, zero, suc, ◌+◌, ◌-◌, ◌≡◌, ◌≤◌, refl, sym, ap, ◌∙◌, Option, none, some, List, [], ◌∷◌, ◌++◌, ℤ,
  take, drop, down, leb→le, length, arith, leb, length-take, length-drop, Bool-cases, inl, inr,
}
use Prim.Native.Nat.{min}
use scim_server.Group.Pages.{page, offset, limit, limited, min_thousand, max_zero}

min_thousand-pos : (n : ℕ) → min_thousand (ℤ.pos n) ≡ ℤ.pos (min n 1000)
min_thousand-pos n = elim (Bool-cases (leb n 1000)) [
  | inl e ↦ rw e (ap ℤ.pos (omega (arith, leb→le n 1000 e)))
  | inr e ↦ rw e (ap ℤ.pos (ground (arith, e)))
]

offset-pos : (i : ℕ) → offset (some (ℤ.pos (i + 1))) ≡ i
unfolding offset
offset-pos i = let e : i + 1 ≡ suc i = omega arith in ap (λ k. max_zero (down (ℤ.pos k))) e

-- The entries before the start index.
abbrev pub skipped : Option ℤ → ℕ
skipped none = 0
skipped (some (ℤ.pos n)) = n - 1
skipped (some (ℤ.negsuc n)) = 0

-- How many of the entries that are left a count lets through.
abbrev pub shown : Option ℤ → ℕ → ℕ
shown none left = min 100 left
shown (some (ℤ.pos n)) left = min (min n 1000) left
shown (some (ℤ.negsuc n)) left = left

offset-skipped : (start_index : Option ℤ) → offset start_index ≡ skipped start_index
unfolding offset
offset-skipped none = refl
offset-skipped (some (ℤ.pos zero)) = refl
offset-skipped (some (ℤ.pos (suc n))) = omega arith
offset-skipped (some (ℤ.negsuc n)) = refl

min-shown : (count : Option ℤ) (left : ℕ) → min (shown count left) left ≡ shown count left
min-shown none left = omega arith
min-shown (some (ℤ.pos n)) left = omega arith
min-shown (some (ℤ.negsuc n)) left = omega arith

module _ {ℓ} {A : Type ℓ} where
  take-nil : (n : ℕ) → take {A = A} n [] ≡ []
  take-nil zero = refl
  take-nil (suc n) = refl

  drop-nil : (n : ℕ) → drop {A = A} n [] ≡ []
  drop-nil zero = refl
  drop-nil (suc n) = refl

  take-take-drop : (n m : ℕ) (xs : List A) → take n xs ++ take m (drop n xs) ≡ take (n + m) xs
  take-take-drop zero m xs = ap (λ k. take k xs) (omega arith)
  take-take-drop (suc n) m [] = ap (λ ys. [] ++ ys) (take-nil m) ∙ sym (take-nil (suc n + m))
  take-take-drop (suc n) m (x ∷ xs) =
      let e : suc (n + m) ≡ suc n + m = omega arith in
      ap (λ ys. x ∷ ys) (take-take-drop n m xs) ∙ ap (λ k. take k (x ∷ xs)) e

  drop-drop : (i n : ℕ) (xs : List A) → drop n (drop i xs) ≡ drop (i + n) xs
  drop-drop zero n xs = ap (λ k. drop k xs) (omega arith)
  drop-drop (suc i) n [] = drop-nil n ∙ sym (drop-nil (suc i + n))
  drop-drop (suc i) n (x ∷ xs) =
      let e : suc (i + n) ≡ suc i + n = omega arith in
      drop-drop i n xs ∙ ap (λ k. drop k (x ∷ xs)) e

  page-pos :
      (start_index : Option ℤ) (n : ℕ) (xs : List A)
      → page start_index (some (ℤ.pos n)) xs ≡ take (min n 1000) (drop (offset start_index) xs)
  unfolding page limit limited
  page-pos start_index n xs =
      ap (λ l. limited l (drop (offset start_index) xs)) (min_thousand-pos n)

  take-length : (n : ℕ) (xs : List A) → take n xs ≡ take (min n (length xs)) xs
  take-length zero xs = let e : 0 ≡ min 0 (length xs) = omega arith in ap (λ k. take k xs) e
  take-length (suc n) [] = sym (take-nil (min (suc n) (length {A = A} [])))
  take-length (suc n) (x ∷ xs) =
      let e : suc (min n (length xs)) ≡ min (suc n) (length (x ∷ xs)) = omega arith in
      ap (λ ys. x ∷ ys) (take-length n xs) ∙ ap (λ k. take k (x ∷ xs)) e

  take-min : (n i : ℕ) (xs : List A) → take n (drop i xs) ≡ take (min n (length xs - i)) (drop i xs)
  take-min n i xs =
      take-length n (drop i xs) ∙ ap (λ k. take (min n k) (drop i xs)) (length-drop i xs)

  take_whole : (xs : List A) → xs ≡ take (length xs) xs
  take_whole [] = refl
  take_whole (x ∷ xs) = ap (λ ys. x ∷ ys) (take_whole xs)

  take_all : (i : ℕ) (xs : List A) → drop i xs ≡ take (length xs - i) (drop i xs)
  take_all i xs = take_whole (drop i xs) ∙ ap (λ k. take k (drop i xs)) (length-drop i xs)

  page-within :
      (i n : ℕ) (xs : List A)
      → n ≤ 1000
      → page (some (ℤ.pos (i + 1))) (some (ℤ.pos n)) xs ≡ take n (drop i xs)
  page-within i n xs h =
      page-pos (some (ℤ.pos (i + 1))) n xs
      ∙ ap (λ k. take k (drop (offset (some (ℤ.pos (i + 1)))) xs)) (omega (arith, h))
      ∙ ap (λ k. take n (drop k xs)) (offset-pos i)

  page-shown :
      (start_index count : Option ℤ) (xs : List A)
      → page start_index count xs
        ≡ take (shown count (length xs - skipped start_index)) (drop (skipped start_index) xs)
  unfolding page limit limited
  page-shown start_index none xs =
      ap (λ k. take 100 (drop k xs)) (offset-skipped start_index)
      ∙ take-min 100 (skipped start_index) xs
  page-shown start_index (some (ℤ.pos n)) xs =
      page-pos start_index n xs
      ∙ ap (λ k. take (min n 1000) (drop k xs)) (offset-skipped start_index)
      ∙ take-min (min n 1000) (skipped start_index) xs
  page-shown start_index (some (ℤ.negsuc n)) xs =
      ap (λ k. drop k xs) (offset-skipped start_index) ∙ take_all (skipped start_index) xs

  -- A page begins behind as many entries as are before its start index, counted from one, at the first
  -- entry where the index is not positive or not given; it shows what is left there, cut to the count
  -- asked for, a thousand at most and a hundred where no count is given. A negative count cuts nothing.
  -- The number of its entries is what it shows.
  pub page_lem :
      (start_index count : Option ℤ) (xs : List A)
      → (page start_index count xs
          ≡ take (shown count (length xs - skipped start_index)) (drop (skipped start_index) xs))
        × (length (page start_index count xs) ≡ shown count (length xs - skipped start_index))
  page_lem start_index count xs =
      let rest = drop (skipped start_index) xs in
      let left = length xs - skipped start_index in
      (
        page-shown start_index count xs,
        ap length (page-shown start_index count xs)
            ∙ length-take (shown count left) rest
            ∙ ap (min (shown count left)) (length-drop (skipped start_index) xs)
            ∙ min-shown count left,
      )

  -- A page and the page that starts behind it are together the entries from the first page's start
  -- on, as many as the two pages ask for.
  pub page-append :
      (i n m : ℕ) (xs : List A)
      → n ≤ 1000
      → m ≤ 1000
      → page (some (ℤ.pos (i + 1))) (some (ℤ.pos n)) xs
          ++ page (some (ℤ.pos (i + n + 1))) (some (ℤ.pos m)) xs
        ≡ take (n + m) (drop i xs)
  page-append i n m xs h k =
      ap (λ ys. ys ++ page (some (ℤ.pos (i + n + 1))) (some (ℤ.pos m)) xs) (page-within i n xs h)
      ∙ ap (λ ys. take n (drop i xs) ++ ys)
          (page-within (i + n) m xs k ∙ ap (take m) (sym (drop-drop i n xs)))
      ∙ take-take-drop n m (drop i xs)

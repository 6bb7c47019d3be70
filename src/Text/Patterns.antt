-- ===== src/Text/Patterns.antt =====
-- `starts_with`, `ends_with` and `contains` decide what they say.
use scim_server.Common.{
  ◌-◌, ◌≡◌, refl, ap, ◌∙◌, sym, ◌↔◌, true, [], ◌∷◌, ◌++◌, arith, length, take, drop, length-append,
  take-append-drop, drop-append, Bool-cases, inl, inr,
}
use scim_server.Text.{Text, ◌==◌, starts_with, ends_with, contains}
use scim_server.Text.Laws.{eq_iff, eq_refl}

abbrev pub StartsWith : Text → Text → Type 0
StartsWith s p = (rest : Text) × (s ≡ p ++ rest)

abbrev pub EndsWith : Text → Text → Type 0
EndsWith s p = (front : Text) × (s ≡ front ++ p)

abbrev pub Contains : Text → Text → Type 0
Contains s p = (front : Text) × (rest : Text) × (s ≡ front ++ (p ++ rest))

starts_with_sound : (s p : Text) → starts_with s p ≡ true → StartsWith s p
unfolding starts_with
starts_with_sound s [] h = (s, refl)
starts_with_sound [] (c ∷ p) h = cc
starts_with_sound (d ∷ s) (c ∷ p) h =
    let same : d ≡ c = ground arith in
    let (rest, e) = starts_with_sound s p (ground arith) in (rest, cc)

starts_with-append : (p rest : Text) → starts_with (p ++ rest) p ≡ true
unfolding starts_with
starts_with-append [] [] = refl
starts_with-append [] (c ∷ rest) = refl
starts_with-append (c ∷ p) rest = ground (arith, starts_with-append p rest)

pub starts_with_iff : (s p : Text) → (starts_with s p ≡ true) ↔ StartsWith s p
starts_with_iff s p = (starts_with_sound s p, λ (rest, e). rw e (starts_with-append p rest))

ends_with-append : (front p : Text) → ends_with (front ++ p) p ≡ true
unfolding ends_with
ends_with-append front p =
    let n : length (front ++ p) - length p ≡ length front = omega (arith, length-append front p) in
    let same : (drop (length (front ++ p) - length p) (front ++ p) == p) ≡ true =
      rw (n, drop-append front p) (eq_refl p) in
    ground (arith, length-append front p)

ends_with_sound : (s p : Text) → ends_with s p ≡ true → EndsWith s p
unfolding ends_with
ends_with_sound s p h =
    let n = length s - length p in
    let e : drop n s ≡ p = ground (arith, eq_iff (drop n s) p) in
    (take n s, sym (take-append-drop n s) ∙ ap (λ t. take n s ++ t) e)

pub ends_with_iff : (s p : Text) → (ends_with s p ≡ true) ↔ EndsWith s p
ends_with_iff s p = (ends_with_sound s p, λ (front, e). rw e (ends_with-append front p))

contains_sound : (s p : Text) → contains s p ≡ true → Contains s p
unfolding contains
contains_sound [] p h = let (rest, e) = starts_with_sound [] p h in ([], rest, e)
contains_sound (c ∷ s) p h = elim (Bool-cases (starts_with (c ∷ s) p)) [
  | inl y ↦ let (rest, e) = starts_with_sound (c ∷ s) p y in ([], rest, e)
  | inr n ↦
      let (front, rest, e) = contains_sound s p (ground arith) in
      (c ∷ front, rest, ap (λ t. c ∷ t) e)
]

contains-append : (front p rest : Text) → contains (front ++ (p ++ rest)) p ≡ true
unfolding contains
contains-append [] [] [] = refl
contains-append [] [] (c ∷ rest) = refl
contains-append [] (c ∷ p) rest = ground (arith, starts_with-append (c ∷ p) rest)
contains-append (c ∷ front) p rest = ground (arith, contains-append front p rest)

pub contains_iff : (s p : Text) → (contains s p ≡ true) ↔ Contains s p
contains_iff s p = (contains_sound s p, λ (front, rest, e). rw e (contains-append front p rest))

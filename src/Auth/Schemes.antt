-- ===== src/Auth/Schemes.antt =====
-- The scheme at the front of an Authorization header, and the first of a character in a text.
use scim_server.Common.{
  ℕ, zero, suc, ◌≡◌, refl, sym, ap, ◌∙◌, true, not, some, [], ◌∷◌, ◌++◌, map, arith, nat_eq, length,
  take, drop, all, take-append-drop, length-take, length-append, length-map, take-append,
  drop-append,
}
use scim_server.Text.{Text, starts_with, ascii_lower, find}
use scim_server.Auth.{has_scheme}

-- `scheme` with what follows it, in any case of its letters.
abbrev pub UnderScheme : Text → Text → Text → Type 0
UnderScheme scheme header rest =
    (written : Text) × (header ≡ written ++ rest) × (map ascii_lower written ≡ scheme)

starts_with_all : (s p : Text) → length s ≡ length p → starts_with s p ≡ true → s ≡ p
unfolding starts_with
starts_with_all [] [] e h = refl
starts_with_all [] (d ∷ p) e h = cc
starts_with_all (c ∷ s) [] e h = absurd (omega (arith, e))
starts_with_all (c ∷ s) (d ∷ p) e h = ground (arith, starts_with_all s p)

starts_with_refl : (s : Text) → starts_with s s ≡ true
unfolding starts_with
starts_with_refl [] = refl
starts_with_refl (c ∷ s) = ground (arith, starts_with_refl s)

pub has_scheme_sound :
    (scheme header : Text)
    → has_scheme scheme header ≡ true
    → UnderScheme scheme header (drop (length scheme) header)
unfolding has_scheme
has_scheme_sound scheme header h =
    let n = length scheme in
    let written = take n header in
    (
      written,
      sym (take-append-drop n header),
      starts_with_all (map ascii_lower written) scheme
          (ground (arith, length-map ascii_lower written, length-take n header)) (ground arith),
    )

pub has_scheme_complete :
    (scheme written rest : Text)
    → map ascii_lower written ≡ scheme
    → (has_scheme scheme (written ++ rest) ≡ true) × (drop (length scheme) (written ++ rest) ≡ rest)
unfolding has_scheme
has_scheme_complete scheme written rest h =
    let e = ap length (sym h) ∙ length-map ascii_lower written in
    let taken = ap (λ n. take n (written ++ rest)) e ∙ take-append written rest in
    (
      ground (
        arith,
        length-append written rest,
        ap (map ascii_lower) taken ∙ h,
        starts_with_refl scheme,
      ),
      ap (λ n. drop n (written ++ rest)) e ∙ drop-append written rest,
    )

pub find-split :
    (c i : ℕ) (s : Text)
    → find c s ≡ some i
    → (s ≡ take i s ++ c ∷ drop (suc i) s) × (all (λ d. not (nat_eq d c)) (take i s) ≡ true)
unfolding find
find-split c i [] h = cc
find-split c zero (d ∷ s) h = ground arith
find-split c (suc i) (d ∷ s) h = ground (arith, find-split c i s)

pub drop-past : (c : ℕ) (s t : Text) → drop (suc (length s)) (s ++ c ∷ t) ≡ t
drop-past c [] t = refl
drop-past c (d ∷ s) t = drop-past c s t

pub find-first :
    (c : ℕ) (s t : Text)
    → all (λ d. not (nat_eq d c)) s ≡ true
    → find c (s ++ c ∷ t) ≡ some (length s)
unfolding find
find-first c [] t h = ground arith
find-first c (d ∷ s) t h = ground (arith, find-first c s t)

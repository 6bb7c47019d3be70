-- ===== src/Text/Laws.antt =====
-- Facts about the operations on texts.
use scim_server.Common.{◌≤◌, Ordering, false, ◌≡◌, refl, subst, ◌↔◌, true, [], ◌∷◌, arith, length}
use scim_server.Text.{Text, ◌==◌, cmp, trim, trim_start, trim_end}

pub eq_sound : (s t : Text) → (s == t) ≡ true → s ≡ t
eq_sound [] [] h = refl
eq_sound [] (d ∷ t) h = cc
eq_sound (c ∷ s) [] h = cc
eq_sound (c ∷ s) (d ∷ t) h = ground (arith, eq_sound s t)

pub eq_refl : (s : Text) → (s == s) ≡ true
eq_refl [] = refl
eq_refl (c ∷ s) = ground (arith, eq_refl s)

pub eq_iff : (s t : Text) → ((s == t) ≡ true) ↔ (s ≡ t)
eq_iff s t = (eq_sound s t, λ e. subst (λ x. (s == x) ≡ true) e (eq_refl s))

-- Two texts compare as equal exactly if they are the same.
pub cmp_beq : (s t : Text) → (s == t) ≡ elim (cmp s t) [ Ordering.eq ↦ true | _ ↦ false ]
unfolding cmp
cmp_beq [] [] = refl
cmp_beq [] (d ∷ t) = refl
cmp_beq (c ∷ s) [] = refl
cmp_beq (c ∷ s) (d ∷ t) = ground (arith, cmp_beq s t)

pub length-trim_start-le : (s : Text) → length (trim_start s) ≤ length s
unfolding trim_start
length-trim_start-le [] = omega arith
length-trim_start-le (c ∷ s) = ground (arith, length-trim_start-le s)

pub length-trim_end-le : (s : Text) → length (trim_end s) ≤ length s
unfolding trim_end
length-trim_end-le [] = omega arith
length-trim_end-le (c ∷ s) = ground (arith, length-trim_end-le s)

pub length-trim-le : (s : Text) → length (trim s) ≤ length s
unfolding trim
length-trim-le s = omega (arith, length-trim_start-le s, length-trim_end-le (trim_start s))

pub eq_sym : (s t : Text) → (s == t) ≡ (t == s)
eq_sym [] [] = refl
eq_sym [] (d ∷ t) = refl
eq_sym (c ∷ s) [] = refl
eq_sym (c ∷ s) (d ∷ t) = ground (arith, eq_sym s t)

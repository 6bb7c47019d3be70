-- ===== src/Common/Reflect.antt =====
-- Boolean connectives and orderings, as tests of statements.
use Prim.Native.Nat.{Ordering}
use mathlib.Core.Path.{◌≡◌, refl}
use mathlib.Core.Logic.{◌≢◌, ◌↔◌, ◌⊎◌, inl, inr}
use mathlib.Core.Bool.{Bool, true, false, not, ◌&&◌, ◌||◌}
use native.Mathlib.Omega.{arith}

module _ {ℓ κ} {P : Type ℓ} {Q : Type κ} where
  pub and_iff : (a b : Bool) → (a ≡ true) ↔ P → (b ≡ true) ↔ Q → (a && b ≡ true) ↔ (P × Q)
  and_iff true b p q = ((λ h. (p.0 refl, q.0 h)), λ (x, y). q.1 y)
  and_iff false b p q = ((λ h. cc), λ (x, y). p.1 x)

  pub or_iff : (a b : Bool) → (a ≡ true) ↔ P → (b ≡ true) ↔ Q → (a || b ≡ true) ↔ (P ⊎ Q)
  or_iff true b p q = ((λ h. inl (p.0 refl)), λ h. refl)
  or_iff false b p q =
      ((λ h. inr (q.0 h)), λ h. elim h [ inl x ↦ absurd_false (p.1 x) | inr y ↦ q.1 y ])
    where
      absurd_false : false ≡ true → b ≡ true
      absurd_false e = cc

pub not_iff {ℓ} : {P : Type ℓ} (a : Bool) → (a ≡ true) ↔ P → (not a ≡ true) ↔ (¬ P)
not_iff true p = ((λ h x. cc), λ n. absurd (n (p.0 refl)))
not_iff false p = ((λ h x. let e : false ≡ true = p.1 x in cc), λ n. refl)

pub is_gt_iff :
    (o : Ordering) → (elim o [ Ordering.gt ↦ true | _ ↦ false ] ≡ true) ↔ (o ≡ Ordering.gt)
is_gt_iff o = ground arith

pub is_lt_iff :
    (o : Ordering) → (elim o [ Ordering.lt ↦ true | _ ↦ false ] ≡ true) ↔ (o ≡ Ordering.lt)
is_lt_iff o = ground arith

pub is_ge_iff :
    (o : Ordering) → (elim o [ Ordering.lt ↦ false | _ ↦ true ] ≡ true) ↔ (o ≢ Ordering.lt)
is_ge_iff o = ground arith

pub is_le_iff :
    (o : Ordering) → (elim o [ Ordering.gt ↦ false | _ ↦ true ] ≡ true) ↔ (o ≢ Ordering.gt)
is_le_iff o = ground arith

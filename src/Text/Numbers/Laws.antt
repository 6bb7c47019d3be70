-- ===== src/Text/Numbers/Laws.antt =====
-- What `to_string` prints of a number is read back by `parse`.
use scim_server.Common.{
  ℕ, zero, suc, ◌<◌, ◌+◌, ◌≡◌, sym, ap, ◌∙◌, some, [], ◌∷◌, leb, arith, Bool-cases, inl, inr,
  some_inj,
}
use Prim.Native.Nat.{◌/◌, ◌%◌}
use scim_server.Text.{Text}
use scim_server.Text.Numbers.{digits_value, digits_before, show}

digits_value-digits_before :
    (fuel n : ℕ) (s : Text) → n < fuel → digits_value 0 (digits_before fuel n s) ≡ digits_value n s
unfolding digits_value digits_before
digits_value-digits_before zero n s h = absurd (omega arith)
digits_value-digits_before (suc fuel) n s h = elim (Bool-cases (leb n 9)) [
  | inl e ↦ ground (arith, e)
  | inr e ↦ ground (arith, e, digits_value-digits_before fuel (n / 10) ((n % 10 + 48) ∷ s))
]

pub digits_value-show : (n : ℕ) → digits_value 0 (show n) ≡ some n
unfolding show digits_value
digits_value-show n = digits_value-digits_before (suc n) n [] (omega arith)

pub show-injective : (m n : ℕ) → show m ≡ show n → m ≡ n
show-injective m n h =
    some_inj.0 (sym (digits_value-show m) ∙ ap (digits_value 0) h ∙ digits_value-show n)

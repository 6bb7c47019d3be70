-- ===== src/Text/Chars.antt =====
-- What holds of all characters of a text holds of those of its parts.
use scim_server.Common.{
  ℕ, zero, suc, ◌-◌, ◌≤◌, ◌≡◌, refl, Bool, true, some, [], ◌∷◌, arith, length, take, drop, all, ltb,
}
use scim_server.Text.{Text, trim, trim_start, trim_end, split_at_byte, len_utf8}

module _ (p : ℕ → Bool) where
  pub all-take : (n : ℕ) (s : Text) → all p s ≡ true → all p (take n s) ≡ true
  all-take zero s h = refl
  all-take (suc n) [] h = refl
  all-take (suc n) (c ∷ s) h = ground (arith, all-take n s)

  pub all-drop : (n : ℕ) (s : Text) → all p s ≡ true → all p (drop n s) ≡ true
  all-drop zero s h = h
  all-drop (suc n) [] h = refl
  all-drop (suc n) (c ∷ s) h = all-drop n s (ground arith)

  all-trim_start : (s : Text) → all p s ≡ true → all p (trim_start s) ≡ true
  unfolding trim_start
  all-trim_start [] h = refl
  all-trim_start (c ∷ s) h = ground (arith, all-trim_start s)

  all-trim_end : (s : Text) → all p s ≡ true → all p (trim_end s) ≡ true
  unfolding trim_end
  all-trim_end [] h = refl
  all-trim_end (c ∷ s) h = ground (arith, all-trim_end s)

  pub all-trim : (s : Text) → all p s ≡ true → all p (trim s) ≡ true
  unfolding trim
  all-trim s h = all-trim_end (trim_start s) (all-trim_start s h)

-- The characters of one byte.
abbrev pub is_ascii : ℕ → Bool
is_ascii c = ltb c 0x80

-- In an ASCII text the byte offsets are the positions of characters.
pub split_at_byte-ascii :
    (i : ℕ) (s : Text)
    → all is_ascii s ≡ true
    → i ≤ length s
    → split_at_byte i s ≡ some (take i s, drop i s)
unfolding split_at_byte
split_at_byte-ascii zero s h le = refl
split_at_byte-ascii (suc i) [] h le = absurd (omega arith)
split_at_byte-ascii (suc i) (c ∷ s) h le =
    let one : len_utf8 c ≡ 1 = ground arith in
    let rest : suc i - len_utf8 c ≡ i = omega (arith, one) in
    rw (rest, split_at_byte-ascii i s (ground arith) (omega arith)) (ground arith)

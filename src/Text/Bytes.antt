-- ===== src/Text/Bytes.antt =====
-- Cutting a text at a byte offset.
use scim_server.Common.{ℕ, zero, suc, ◌+◌, ◌-◌, ◌≤◌, ◌<◌, ◌≡◌, some, [], ◌∷◌, arith, length}
use scim_server.Text.{Text, split_at_byte, len_utf8}

len_utf8_pos : (c : ℕ) → 0 < len_utf8 c
len_utf8_pos c = ground arith

-- The two parts, in characters: the first has at most as many as its bytes, and together they are
-- the text.
pub split_at_byte_lem :
    (i : ℕ) (s : Text) (a b : Text)
    → split_at_byte i s ≡ some (a, b)
    → (length a ≤ i) × (length a + length b ≡ length s) × (0 < i → 0 < length a)
unfolding split_at_byte
split_at_byte_lem zero s a b h = ground arith
split_at_byte_lem (suc i) [] a b h = cc
split_at_byte_lem (suc i) (c ∷ s) [] b h = ground arith
split_at_byte_lem (suc i) (c ∷ s) (d ∷ a) b h =
    ground (arith, len_utf8_pos c, split_at_byte_lem (suc i - len_utf8 c) s a b)

-- ===== src/Filter/Parser/Shorter.antt =====
-- The recursion of `parse_filter` goes to shorter texts.
use scim_server.Common.{
  suc, ◌-◌, ◌<◌, ◌≡◌, true, [], ◌∷◌, arith, length, drop, length-take, length-drop,
}
use scim_server.Text.{Text, starts_with, trim}
use scim_server.Text.Laws.{length-trim-le}
use scim_server.Filter.Parser.{is_not, is_parenthesised, inside}

pub length-inside-lt : (s : Text) → is_parenthesised s ≡ true → length (inside s) < length s
unfolding is_parenthesised starts_with
length-inside-lt [] h = cc
length-inside-lt (c ∷ s) h = omega (arith, length-take {0} (suc (length s) - 2) s)

pub length-drop_not-lt : (s : Text) → is_not s ≡ true → length (trim (drop 4 s)) < length s
unfolding is_not starts_with
length-drop_not-lt [] h = cc
length-drop_not-lt (c ∷ s) h =
    omega (arith, length-trim-le (drop 4 (c ∷ s)), length-drop {0} 4 (c ∷ s))

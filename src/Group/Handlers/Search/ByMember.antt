-- ===== src/Group/Handlers/Search/ByMember.antt =====
-- The filter `members[value eq "…"]`: the identifier that is between its quotes.
use scim_server.Common.{
  ℕ, ◌+◌, ◌-◌, ◌≡◌, refl, sym, ap, ◌∙◌, true, false, Option, some, [], ◌∷◌, ◌++◌, length, drop, ℤ,
  arith, leb, if◌then◌else◌, Bool-cases, inl, inr, append_assoc, take-append, drop-append,
  length-append,
}
use scim_server.Text.{Text, codes, starts_with, ends_with, find, rfind}
use scim_server.Config.{CompatibilityConfig}
use scim_server.Auth.{TenantInfo}
use scim_server.Response.Attributes.{AttributeFilter}
use scim_server.Group.Store.{Tables}
use scim_server.Group.Handlers.{HandlerServices}
use scim_server.Group.Handlers.Search.{
  user_id_of_filter, between_quotes, groups_of_user, search_by_member, is_members_filter,
  unless_invalid, search_refused,
}

abbrev pub members_filter : Text → Text
members_filter id = codes "members[value eq \"" ++ (id ++ codes "\"]")

rfind-append : (s : Text) → rfind b'"' (s ++ codes "\"]") ≡ some (length s)
unfolding rfind
rfind-append [] = refl
rfind-append (c ∷ s) = rw (rfind-append s) refl

rfind-behind :
    (p s : Text) (i : ℕ) → rfind b'"' s ≡ some i → rfind b'"' (p ++ s) ≡ some (length p + i)
unfolding rfind
rfind-behind [] s i h = h ∙ ap some (omega arith)
rfind-behind (c ∷ p) s i h = rw (rfind-behind p s i h) (ap some (omega arith))

opening : Text
opening = codes "members[value eq \""

-- Whatever the identifier is, it is what is between the first and the last quote.
pub user_id_of_filter-members_filter : (id : Text) → user_id_of_filter (members_filter id) ≡ some id
unfolding user_id_of_filter find opening
user_id_of_filter-members_filter id =
    let s = members_filter id in
    let closing = rfind-behind opening (id ++ codes "\"]") (length id) (rfind-append id) in
    let later : leb (18 + length id) 17 ≡ false = ground arith in
    let size : 18 + length id - 18 ≡ length id = omega arith in
    ap (λ o. between_quotes (some 17) o s) closing
    ∙ rw (later, size) (ap some (take-append id (codes "\"]")))

pub is_members_filter-members_filter : (id : Text) → is_members_filter (members_filter id) ≡ true
unfolding starts_with ends_with
is_members_filter-members_filter id =
    let unclosed = codes "members[value eq \"" ++ (id ++ codes "\"") in
    let s = members_filter id in
    let same : unclosed ++ codes "]" ≡ s =
      ap (λ x. codes "members[value eq \"" ++ x) (append_assoc id (codes "\"") (codes "]")) in
    let size : length s - 1 ≡ length unclosed =
      omega (arith, length-append unclosed (codes "]"), ap length same) in
    let last : drop (length s - 1) s ≡ codes "]" =
      ap (λ n. drop n s) size
      ∙ ap (drop (length unclosed)) (sym same)
      ∙ drop-append unclosed (codes "]") in
    ground (arith, last)

module _ (services : HandlerServices) where
  -- A filter members[value eq "id"] lists the groups of that user, whatever the identifier is, if the
  -- settings allow the filter, and is refused with 400 if not.
  pub search_by_member-members_filter :
      (info : TenantInfo) (config : CompatibilityConfig) (now : Text) (t : Tables)
      (start_index : Option ℤ) (filter : AttributeFilter) (id : Text)
      → search_by_member services info config now t start_index filter (members_filter id)
        ≡ some (
            if config.support_group_members_filter
            then groups_of_user services info config now t start_index filter id
            else search_refused 400)
  unfolding search_by_member
  search_by_member-members_filter info config now t start_index filter id =
      let k = groups_of_user services info config now t start_index filter in
      let found = ap (λ o. unless_invalid services o k) (user_id_of_filter-members_filter id) in
      elim (Bool-cases config.support_group_members_filter) [
        | inl e ↦ rw (is_members_filter-members_filter id, e) (ap some found)
        | inr e ↦ rw (is_members_filter-members_filter id, e) refl
      ]

-- ===== src/Group/RoundTrip.antt =====
-- The members of a group that is written, read back with it.
use scim_server.Common.{
  ℕ, ◌≡◌, refl, sym, ap, ◌∙◌, true, false, not, Option, none, some, List, [], ◌∷◌, ◌++◌, arith, any,
  all, keep, keep-append, Option-cases, inl, inr, subst, append-nil,
}
use scim_server.Text.{Text}
use scim_server.Text.Laws.{eq_iff, eq_refl}
use scim_server.Error.{ok, >>=-Steps, ok-injective}
use scim_server.Group.{Group, Member, PreparedGroup, GroupServices, prepared_group}
use scim_server.Group.Store.{
  GroupRow, Membership, Tables, is_group, in_group, insert_group, replace_group,
}
use scim_server.Group.Members.{memberships_of, memberships_given}
use scim_server.Group.Laws.{
  WellFormed, grounded, insert_all-appends, insert_group-ok, replace_group-ok,
}

-- The memberships written for a group are all that group's.
keep-memberships_of :
    (id : Text) (members : List Member)
    → keep (in_group id) (memberships_of id members) ≡ memberships_of id members
unfolding memberships_of
keep-memberships_of id [] = refl
keep-memberships_of id (m ∷ members) = elim (Option-cases m.value) [
  | inl e ↦ rw e (keep-memberships_of id members)
  | inr (member_id, e) ↦ rw e (ground (arith, eq_refl id, keep-memberships_of id members))
]

keep_others-memberships_of :
    (id : Text) (members : List Member)
    → keep (λ m. not (in_group id m)) (memberships_of id members) ≡ []
unfolding memberships_of
keep_others-memberships_of id [] = refl
keep_others-memberships_of id (m ∷ members) = elim (Option-cases m.value) [
  | inl e ↦ rw e (keep_others-memberships_of id members)
  | inr (member_id, e) ↦ rw e (ground (arith, eq_refl id, keep_others-memberships_of id members))
]

keep-memberships_given :
    (id : Text) (members : Option (List Member))
    → (keep (in_group id) (memberships_given id members) ≡ memberships_given id members)
      × (keep (λ m. not (in_group id m)) (memberships_given id members) ≡ [])
keep-memberships_given id none = (refl, refl)
keep-memberships_given id (some members) =
    (keep-memberships_of id members, keep_others-memberships_of id members)

-- Of memberships with those of one group at their end and nowhere before.
abbrev pub WrittenFor : Text → Option (List Member) → List Membership → List Membership → Type 0
WrittenFor id members before after =
    (keep (in_group id) after ≡ memberships_given id members)
    × (keep (λ m. not (in_group id m)) after ≡ keep (λ m. not (in_group id m)) before)

written_behind :
    (id : Text) (members : Option (List Member)) (ms after : List Membership)
    → keep (in_group id) ms ≡ []
    → after ≡ ms ++ memberships_given id members
    → WrittenFor id members ms after
written_behind id members ms after n e =
    let (own, others) = keep-memberships_given id members in
    (
      ap (keep (in_group id)) e
          ∙ keep-append (in_group id) ms (memberships_given id members)
          ∙ ap (λ x. x ++ keep (in_group id) (memberships_given id members)) n
          ∙ own,
      ap (keep (λ m. not (in_group id m))) e
          ∙ keep-append (λ m. not (in_group id m)) ms (memberships_given id members)
          ∙ ap (λ x. keep (λ m. not (in_group id m)) ms ++ x) others
          ∙ append-nil (keep (λ m. not (in_group id m)) ms),
    )

keep-keep-not :
    (id : Text) (ms : List Membership)
    → (keep (in_group id) (keep (λ m. not (in_group id m)) ms) ≡ [])
      × (keep (λ m. not (in_group id m)) (keep (λ m. not (in_group id m)) ms)
          ≡ keep (λ m. not (in_group id m)) ms)
keep-keep-not id [] = (refl, refl)
keep-keep-not id (m ∷ ms) = ground (arith, keep-keep-not id ms)

pub prepared_group-members :
    (services : GroupServices) (now : ℕ) (id : Text) (group : Group) (p : PreparedGroup)
    → prepared_group services now id group ≡ ok p
    → (p.id ≡ id) × (p.members ≡ group.members)
unfolding prepared_group
prepared_group-members services now id group p h =
    let (v, e, f) = >>=-Steps (services.to_value (record group { members = none })) _ h in
    let same = ok-injective f in
    (sym (ap (λ (x : PreparedGroup). x.id) same), sym (ap (λ (x : PreparedGroup). x.members) same))

pub replace_group-WrittenFor :
    (services : GroupServices) (t : Tables) (p : PreparedGroup) (t' : Tables)
    → replace_group services t p ≡ ok (some t')
    → WrittenFor p.id p.members t.memberships t'.memberships
replace_group-WrittenFor services t p t' h =
    let (ms, n, i, m, e) = replace_group-ok services t p t' h in
    let left = keep (λ m. not (in_group p.id m)) t.memberships in
    let (a, b) = keep-keep-not p.id t.memberships in
    let (own, others) =
      written_behind p.id p.members left ms a
        (insert_all-appends services p.id p.members left ms m) in
    subst (λ (x : Tables). WrittenFor p.id p.members t.memberships x.memberships) e
      (own, others ∙ b)

-- A membership of a group that is not there would not be grounded.
grounded-keep :
    (id : Text) (rows : List GroupRow) (ms : List Membership)
    → all (grounded rows) ms ≡ true
    → any (is_group id) rows ≡ false
    → keep (in_group id) ms ≡ []
grounded-keep id rows [] g n = refl
grounded-keep id rows (m ∷ ms) g n = ground (arith, eq_iff m.group_id id, grounded-keep id rows ms)

pub insert_group-WrittenFor :
    (services : GroupServices) (t : Tables) (p : PreparedGroup) (t' : Tables)
    → WellFormed t
    → insert_group services t p ≡ ok t'
    → WrittenFor p.id p.members t.memberships t'.memberships
insert_group-WrittenFor services t p t' w h =
    let (ms, n, i, m, e) = insert_group-ok services t p t' h in
    subst (λ (x : Tables). WrittenFor p.id p.members t.memberships x.memberships) e
      (written_behind p.id p.members t.memberships ms
        (grounded-keep p.id t.groups t.memberships w.all_grounded i)
        (insert_all-appends services p.id p.members t.memberships ms m))

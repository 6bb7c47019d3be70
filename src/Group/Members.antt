-- ===== src/Group/Members.antt =====
-- The table of memberships: what the loop over the members writes.
use scim_server.Common.{
  ◌≡◌, refl, sym, ap, ◌∙◌, Bool, true, false, not, ◌&&◌, Option, none, some, List, [], ◌∷◌, ◌++◌,
  arith, any, keep, any-append, any-keep, append_assoc, append-nil, Option-cases, inl, inr,
}
use scim_server.Text.{Text}
use scim_server.Text.Laws.{eq_sym}
use scim_server.Error.{ok, >>=-Steps, ok-injective}
use scim_server.Group.{Member, GroupServices}
use scim_server.Group.Store.{
  Membership, is_member_type, same_membership, member_type_of, insert_membership, insert_members,
}

-- The memberships that the members stand for.
unfoldable pub memberships_of : Text → List Member → List Membership
memberships_of id [] = []
memberships_of id (m ∷ members) =
    let rest = memberships_of id members in
    elim m.value [
      | none ↦ rest
      | some member_id ↦
          record { group_id = id; member_id = member_id; member_type = member_type_of m } ∷ rest
    ]

abbrev pub memberships_given : Text → Option (List Member) → List Membership
memberships_given id none = []
memberships_given id (some members) = memberships_of id members

insert_membership-ok :
    (services : GroupServices) (m : Membership) (ms ms' : List Membership)
    → insert_membership services m ms ≡ ok ms'
    → (ms' ≡ ms ++ m ∷ [])
      × (is_member_type m.member_type ≡ true)
      × (any (same_membership m) ms ≡ false)
unfolding insert_membership
insert_membership-ok services m ms ms' h = ground arith

-- Where the loop succeeds, it has written the memberships of the members behind the others.
pub insert_members-appends :
    (services : GroupServices) (id : Text) (members : List Member) (ms ms' : List Membership)
    → insert_members services id members ms ≡ ok ms'
    → ms' ≡ ms ++ memberships_of id members
unfolding insert_members memberships_of
insert_members-appends services id [] ms ms' h = sym (ok-injective h) ∙ sym (append-nil ms)
insert_members-appends services id (m ∷ members) ms ms' h = elim (Option-cases m.value) [
  | inl e ↦ rw e (insert_members-appends services id members ms ms' (rw (e, insert_members) at h))
  | inr (member_id, e) ↦
      let new : Membership = record {
        group_id = id;
        member_id = member_id;
        member_type = member_type_of m;
      } in
      let (ns, f, g) =
        >>=-Steps (insert_membership services new ms)
          (λ (x : List Membership). insert_members services id members x)
          (rw (e, insert_members) at h) in
      rw e (
        insert_members-appends services id members ns ms' g
        ∙ ap (λ x. x ++ memberships_of id members) (insert_membership-ok services new ms ns f).0
        ∙ append_assoc ms (new ∷ []) (memberships_of id members))
]

-- Every membership has one of the two types, and none is there twice.
unfoldable pub memberships_valid : List Membership → Bool
memberships_valid [] = true
memberships_valid (m ∷ ms) =
    is_member_type m.member_type && not (any (same_membership m) ms) && memberships_valid ms

same_membership_sym : (m n : Membership) → same_membership m n ≡ same_membership n m
same_membership_sym m n = ground (
  arith,
  eq_sym m.group_id n.group_id,
  eq_sym m.member_id n.member_id,
  eq_sym m.member_type n.member_type,
)

append-memberships_valid :
    (ms : List Membership) (m : Membership)
    → memberships_valid ms ≡ true
    → is_member_type m.member_type ≡ true
    → any (same_membership m) ms ≡ false
    → memberships_valid (ms ++ m ∷ []) ≡ true
unfolding memberships_valid
append-memberships_valid [] m v t n = ground arith
append-memberships_valid (x ∷ ms) m v t n = ground (
  arith,
  append-memberships_valid ms m,
  any-append (same_membership x) ms (m ∷ []),
  same_membership_sym m x,
)

pub keep-memberships_valid :
    (p : Membership → Bool) (ms : List Membership)
    → memberships_valid ms ≡ true
    → memberships_valid (keep p ms) ≡ true
unfolding memberships_valid
keep-memberships_valid p [] v = refl
keep-memberships_valid p (m ∷ ms) v =
    ground (arith, any-keep (same_membership m) p ms, keep-memberships_valid p ms)

pub insert_members-memberships_valid :
    (services : GroupServices) (id : Text) (members : List Member) (ms ms' : List Membership)
    → insert_members services id members ms ≡ ok ms'
    → memberships_valid ms ≡ true
    → memberships_valid ms' ≡ true
unfolding insert_members
insert_members-memberships_valid services id [] ms ms' h v =
    ap memberships_valid (sym (ok-injective h)) ∙ v
insert_members-memberships_valid services id (m ∷ members) ms ms' h v =
    elim (Option-cases m.value) [
      | inl e ↦
          insert_members-memberships_valid services id members ms ms' (rw (e, insert_members) at h)
            v
      | inr (member_id, e) ↦
          let new : Membership = record {
            group_id = id;
            member_id = member_id;
            member_type = member_type_of m;
          } in
          let (ns, f, g) =
            >>=-Steps (insert_membership services new ms)
              (λ (x : List Membership). insert_members services id members x)
              (rw (e, insert_members) at h) in
          let (a, t, n) = insert_membership-ok services new ms ns f in
          insert_members-memberships_valid services id members ns ms' g
            (ap memberships_valid a ∙ append-memberships_valid ms new v t n)
    ]

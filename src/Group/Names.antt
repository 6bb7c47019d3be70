-- ===== src/Group/Names.antt =====
-- The table of groups: identifiers and display names stay unique.
use scim_server.Common.{
  ◌≡◌, refl, Bool, true, false, not, ◌&&◌, List, [], ◌∷◌, ◌++◌, map, arith, any, keep, any-append,
  any-keep, Bool-cases, inl, inr,
}
use scim_server.Text.{Text, ◌==◌}
use scim_server.Text.Laws.{eq_iff, eq_sym}
use scim_server.User.Store.{lower}
use scim_server.Group.{PreparedGroup}
use scim_server.Group.Store.{GroupRow, is_group, displayed, another_group, changed_row}

-- No two rows have the same identifier, or names that differ in the case of ASCII letters alone.
unfoldable pub groups_unique : List GroupRow → Bool
groups_unique [] = true
groups_unique (row ∷ rows) =
    not (any (is_group row.id) rows)
    && not (any (displayed row.display_name) rows)
    && groups_unique rows

pub append-groups_unique :
    (rows : List GroupRow) (row : GroupRow)
    → groups_unique rows ≡ true
    → any (is_group row.id) rows ≡ false
    → any (displayed row.display_name) rows ≡ false
    → groups_unique (rows ++ row ∷ []) ≡ true
unfolding groups_unique
append-groups_unique [] row u i n = refl
append-groups_unique (x ∷ rows) row u i n = ground (
  arith,
  append-groups_unique rows row,
  any-append (is_group x.id) rows (row ∷ []),
  any-append (displayed x.display_name) rows (row ∷ []),
  eq_sym row.id x.id,
  eq_sym (lower row.display_name) (lower x.display_name),
)

pub keep-groups_unique :
    (p : GroupRow → Bool) (rows : List GroupRow)
    → groups_unique rows ≡ true
    → groups_unique (keep p rows) ≡ true
unfolding groups_unique
keep-groups_unique p [] k = refl
keep-groups_unique p (row ∷ rows) k = ground (
  arith,
  any-keep (is_group row.id) p rows,
  any-keep (displayed row.display_name) p rows,
  keep-groups_unique p rows,
)

-- An update changes no identifier.
pub any-is_group-changed_row :
    (p : PreparedGroup) (id : Text) (rows : List GroupRow)
    → any (is_group id) (map (changed_row p) rows) ≡ any (is_group id) rows
unfolding changed_row
any-is_group-changed_row p id [] = refl
any-is_group-changed_row p id (row ∷ rows) = ground (arith, any-is_group-changed_row p id rows)

map-changed_row_absent :
    (p : PreparedGroup) (rows : List GroupRow)
    → any (is_group p.id) rows ≡ false
    → map (changed_row p) rows ≡ rows
unfolding changed_row
map-changed_row_absent p [] h = refl
map-changed_row_absent p (row ∷ rows) h = ground (arith, map-changed_row_absent p rows)

another_group_absent :
    (id name : Text) (rows : List GroupRow)
    → any (is_group id) rows ≡ false
    → any (another_group id (displayed name)) rows ≡ false
    → any (displayed name) rows ≡ false
another_group_absent id name [] h i = refl
another_group_absent id name (row ∷ rows) h i = ground (arith, another_group_absent id name rows)

any-displayed-changed_row :
    (p : PreparedGroup) (name : Text) (rows : List GroupRow)
    → lower p.display_name == lower name ≡ false
    → any (displayed name) rows ≡ false
    → any (displayed name) (map (changed_row p) rows) ≡ false
unfolding changed_row
any-displayed-changed_row p name [] h i = refl
any-displayed-changed_row p name (row ∷ rows) h i =
    ground (arith, any-displayed-changed_row p name rows)

pub changed_row-groups_unique :
    (p : PreparedGroup) (rows : List GroupRow)
    → any (another_group p.id (displayed p.display_name)) rows ≡ false
    → groups_unique rows ≡ true
    → groups_unique (map (changed_row p) rows) ≡ true
unfolding groups_unique changed_row
changed_row-groups_unique p [] h k = refl
changed_row-groups_unique p (row ∷ rows) h k = elim (Bool-cases (is_group p.id row)) [
  | inl e ↦ ground (
    arith,
    eq_iff row.id p.id,
    map-changed_row_absent p rows,
    another_group_absent p.id p.display_name rows,
  )
  | inr e ↦ ground (
    arith,
    any-is_group-changed_row p row.id rows,
    eq_sym (lower row.display_name) (lower p.display_name),
    any-displayed-changed_row p row.display_name rows,
    changed_row-groups_unique p rows,
  )
]

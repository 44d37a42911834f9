-- ===== src/Nacm/PushUpdate/Readable.antt =====
-- ncac_check_yang_push_update_notif of src/netconf_acm.c leaves what may be read.
use netopeer.Common.{
  ◌≡◌, refl, ap, ℕ, suc, ◌+◌, ◌≤◌, ◌==◌, Bool, true, false, List, [], ◌∷◌, length, Option, none,
  some, CString, All, arith, inl, inr, Bool-cases, if◌then◌else◌,
}
use netopeer.Nacm.Types.{op_read, Nacm, NodeInfo, Forest, nil, node, System}
use netopeer.Nacm.Users.{collect_groups}
use netopeer.Nacm.Operation.{permitted}
use netopeer.Nacm.ReadFilter.{filter_tree}
use netopeer.Nacm.PushUpdate.{
  PushEdit, siblings, filter_values, filter_value, filter_edits, check_yang_push_update_notif,
}

-- The edits whose target may be read, with values filtered as any data.
abbrev pub read_children : System → Nacm → CString → List CString → Option Forest → Option Forest
read_children sys nacm user groups none = none
read_children sys nacm user groups (some f) = some (filter_tree sys nacm user groups f)

abbrev pub readable_edits : System → Nacm → CString → List CString → List PushEdit → List PushEdit
readable_edits sys nacm user groups [] = []
readable_edits sys nacm user groups (e ∷ es) =
    if permitted sys nacm op_read groups e.target
    then record e { children = read_children sys nacm user groups e.children }
      ∷ readable_edits sys nacm user groups es
    else readable_edits sys nacm user groups es

-- The value has one child at most.
abbrev pub OneChild : Option Forest → Type 0
OneChild none = Unit {0}
OneChild (some f) = siblings f ≤ 1

abbrev pub Single : PushEdit → Type 0
Single e = OneChild e.children

abbrev pub is_empty : List PushEdit → Bool
is_empty [] = true
is_empty (e ∷ es) = false

module _ (sys : System) (nacm : Nacm) (user : CString) (groups : List CString) where
  values_one_child :
      (f : Forest)
      → siblings f ≤ 1
      → filter_values sys nacm user groups (siblings f) f
        ≡ some (filter_tree sys nacm user groups f)
  unfolding filter_values filter_tree
  values_one_child nil h = refl
  values_one_child (node n child nil) h = refl
  values_one_child (node n child (node m c next)) h = absurd (omega (arith, h))

  value-Single :
      (e : PushEdit)
      → Single e
      → filter_value sys nacm user groups e
        ≡ some (record e { children = read_children sys nacm user groups e.children })
  unfolding filter_value
  value-Single e h = by_children e.target e.children h
    where
      by_children :
          (t : NodeInfo) (o : Option Forest)
          → OneChild o
          → filter_value sys nacm user groups (record { target = t; children = o })
            ≡ some (record { target = t; children = read_children sys nacm user groups o })
      by_children t none h = refl
      by_children t (some f) h = rw (filter_value, values_one_child f h)

  filter_edits-readable :
      (set : List PushEdit)
      → All Single set
      → (removed : ℕ) × (filter_edits sys nacm user groups set
          ≡ some (readable_edits sys nacm user groups set, removed))
        × (removed + length (readable_edits sys nacm user groups set) ≡ length set)
  unfolding filter_edits
  filter_edits-readable [] h = (0, refl, refl)
  filter_edits-readable (e ∷ es) h =
      let (removed, eq, sum) = filter_edits-readable es h.1 in
      elim (Bool-cases (permitted sys nacm op_read groups e.target)) [
        | inl p ↦ (removed, rw (filter_edits, eq, p, value-Single e h.0), rw p (omega (arith, sum)))
        | inr p ↦ (suc removed, rw (filter_edits, eq, p), rw p (omega (arith, sum)))
      ]

-- Where the groups of the user are known and no value has more than one child, the edits left are those
-- whose target may be read, with their values filtered as other data is; all_removed says whether
-- none is left.
pub push_update-readable :
    (sys : System) (nacm : Nacm) (user : CString) (groups : List CString) (set : List PushEdit)
    → collect_groups sys nacm user ≡ some groups
    → All Single set
    → check_yang_push_update_notif sys nacm user set
      ≡ some (
        readable_edits sys nacm user groups set,
        is_empty (readable_edits sys nacm user groups set),
      )
unfolding check_yang_push_update_notif
push_update-readable sys nacm user groups set g h =
    let (removed, eq, sum) = filter_edits-readable sys nacm user groups set h in
    rw (check_yang_push_update_notif, g, eq)
      (ap (λ b. some (readable_edits sys nacm user groups set, b))
        (none_left removed (readable_edits sys nacm user groups set) (length set) sum))
  where
    none_left : (r : ℕ) (es : List PushEdit) (n : ℕ) → r + length es ≡ n → (r == n) ≡ is_empty es
    none_left r [] n h = ground (arith, h)
    none_left r (e ∷ es) n h = ground (arith, h)

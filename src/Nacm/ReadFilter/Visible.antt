-- ===== src/Nacm/ReadFilter/Visible.antt =====
-- What ncac_check_data_read_filter of src/netconf_acm.c does not take away.
use netopeer.Common.{◌≡◌, ◌⊎◌, inl, inr, true, false, List, some, CString, arith}
use netopeer.Nacm.Types.{
  Nacm, Access, partial_deny, partial_permit, permit, NodeInfo, Forest, nil, node, System,
}
use netopeer.Nacm.Users.{allowed_tree, collect_groups}
use netopeer.Nacm.ReadFilter.{
  is_inner, filter_siblings, read_access, filter_tree, check_data_read_filter,
}

-- The node stands somewhere in the data.
abbrev pub Occurs : Forest → NodeInfo → Type 0
Occurs nil m = ⊥
Occurs (node n child next) m = (n ≡ m) ⊎ Occurs child m ⊎ Occurs next m

module _ (access : NodeInfo → Access) where
  -- The node may be read, and each node above it is permitted with all below it, or else is an
  -- inner node with a partial access.
  abbrev pub IsVisible : Forest → NodeInfo → Type 0
  IsVisible nil m = ⊥
  IsVisible (node n child next) m =
      ((n ≡ m) × ((access n ≡ permit) ⊎ (access n ≡ partial_permit)))
      ⊎ ((access n ≡ permit) × Occurs child m)
      ⊎ (((access n ≡ partial_permit) ⊎ (access n ≡ partial_deny))
          × (is_inner n.schema.nodetype ≡ true)
          × IsVisible child m)
      ⊎ IsVisible next m

  filter_siblings_visible :
      (f : Forest) (m : NodeInfo)
      → IsVisible f m
      → ((filter_siblings access f).1 ≡ true) × Occurs (filter_siblings access f).0 m
  unfolding filter_siblings
  filter_siblings_visible nil m v = absurd v
  filter_siblings_visible (node n child next) m (inl v) = ground (arith, v)
  filter_siblings_visible (node n child next) m (inr (inl v)) = ground (arith, v)
  filter_siblings_visible (node n child next) m (inr (inr (inl v))) =
      ground (arith, v.0, v.1, filter_siblings_visible child m v.2)
  filter_siblings_visible (node n child next) m (inr (inr (inr v))) =
      ground (arith, filter_siblings_visible next m v)

-- The read filter takes no node away that a checked user may read (permit or partial permit), if
-- each node above it is permitted with all below it, or else is an inner node with a partial permit
-- or a partial deny.
pub check_data_read_filter_visible :
    (sys : System) (nacm : Nacm) (user : CString) (groups : List CString) (n m : NodeInfo)
    (child next : Forest)
    → collect_groups sys nacm user ≡ some groups
    → allowed_tree sys nacm n.schema user ≡ false
    → IsVisible (read_access sys nacm groups) (node n child next) m
    → Occurs (check_data_read_filter sys nacm user (node n child next)) m
unfolding check_data_read_filter
check_data_read_filter_visible sys nacm user groups n m child next e a v =
    rw (e, a, check_data_read_filter, filter_tree)
      (filter_siblings_visible (read_access sys nacm groups) (node n child next) m v).1

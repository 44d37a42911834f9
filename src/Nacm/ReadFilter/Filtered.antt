-- ===== src/Nacm/ReadFilter/Filtered.antt =====
-- What ncac_check_data_read_filter leaves.
use netopeer.Common.{
  ◌≡◌, refl, ap, ◌⊎◌, inl, inr, Bool, true, false, List, some, CString, arith, Bool-cases,
  Option-cases,
}
use netopeer.Nacm.Types.{
  Nacm, Access, deny, partial_deny, partial_permit, permit, NodeInfo, Forest, nil, node, System,
}
use netopeer.Nacm.Users.{allowed_tree, collect_groups}
use netopeer.Nacm.ReadFilter.{
  is_inner, filter_siblings, read_access, filter_tree, check_data_read_filter,
}

module _ (access : NodeInfo → Access) where
  -- Some of the siblings is a node that may be read.
  abbrev pub HasReadable : Forest → Type 0
  HasReadable nil = ⊥
  HasReadable (node n child next) =
      (access n ≡ permit)
      ⊎ (access n ≡ partial_permit)
      ⊎ ((access n ≡ partial_deny) × (is_inner n.schema.nodetype ≡ true) × HasReadable child)
      ⊎ HasReadable next

  -- Each node is a key, or it has full read access, or a partial permit, with the same of each node below
  -- it if it is an inner node, or a partial deny, with a readable node and the same of each node below it.
  abbrev pub AllReadable : Forest → Type 0
  AllReadable nil = Unit
  AllReadable (node n child next) =
      ((n.schema.is_key ≡ true)
        ⊎ (access n ≡ permit)
        ⊎ ((access n ≡ partial_permit) × ((is_inner n.schema.nodetype ≡ false) ⊎ AllReadable child))
        ⊎ ((access n ≡ partial_deny) × HasReadable child × AllReadable child))
      × AllReadable next

  filter_siblings-HasReadable :
      (f : Forest) → (filter_siblings access f).1 ≡ true → HasReadable (filter_siblings access f).0
  unfolding filter_siblings
  filter_siblings-HasReadable nil h = cc
  filter_siblings-HasReadable (node n child next) h =
      ground (arith, filter_siblings-HasReadable child, filter_siblings-HasReadable next)

  pub filter_siblings-AllReadable : (f : Forest) → AllReadable (filter_siblings access f).0
  unfolding filter_siblings
  filter_siblings-AllReadable nil = tt
  filter_siblings-AllReadable (node n child next) = ground (
    arith,
    filter_siblings-AllReadable child,
    filter_siblings-AllReadable next,
    filter_siblings-HasReadable child,
  )

  -- One node of a second pass, by the access to it.
  filter_node_idem :
      (a : Access) (n : NodeInfo) (child next : Forest)
      → access n ≡ a
      → filter_siblings access (filter_siblings access child).0 ≡ filter_siblings access child
      → filter_siblings access (filter_siblings access next).0 ≡ filter_siblings access next
      → filter_siblings access (filter_siblings access (node n child next)).0
        ≡ filter_siblings access (node n child next)
  unfolding filter_siblings
  filter_node_idem permit n child next e c x = rw (e, filter_siblings) (ground (arith, e))
  filter_node_idem partial_permit n child next e c x = ground arith
  filter_node_idem partial_deny n child next e c x = ground arith
  filter_node_idem deny n child next e c x = ground arith

  -- A second pass changes nothing.
  pub filter_siblings_idem :
      (f : Forest) → filter_siblings access (filter_siblings access f).0 ≡ filter_siblings access f
  unfolding filter_siblings
  filter_siblings_idem nil = refl
  filter_siblings_idem (node n child next) =
      filter_node_idem (access n) n child next refl (filter_siblings_idem child)
        (filter_siblings_idem next)

filter_again :
    (sys : System) (nacm : Nacm) (user : CString) (groups : List CString) (f : Forest)
    → (filter_siblings (read_access sys nacm groups) f).0 ≡ f
    → filter_tree sys nacm user groups f ≡ f
unfolding filter_tree
filter_again sys nacm user groups nil e = refl
filter_again sys nacm user groups (node n child next) e = ground arith

-- Filtering data twice is filtering it once, whatever the groups, the rules and the first node are.
check_data_read_filter_idem :
    (sys : System) (nacm : Nacm) (user : CString) (f : Forest)
    → check_data_read_filter sys nacm user (check_data_read_filter sys nacm user f)
      ≡ check_data_read_filter sys nacm user f
unfolding check_data_read_filter
check_data_read_filter_idem sys nacm user f = elim (Option-cases (collect_groups sys nacm user)) [
  | inl e ↦ rw (e, check_data_read_filter) (rw (e, check_data_read_filter))
  | inr (groups, e) ↦
      rw (e, check_data_read_filter) (rw (e, check_data_read_filter) (twice groups f))
]
  where
    twice :
        (groups : List CString) (f : Forest)
        → filter_tree sys nacm user groups (filter_tree sys nacm user groups f)
          ≡ filter_tree sys nacm user groups f
    twice groups nil = refl
    twice groups (node n child next) = elim (Bool-cases (allowed_tree sys nacm n.schema user)) [
      | inl a ↦ ground (arith, a)
      | inr a ↦
          rw (a, filter_tree)
            (filter_again sys nacm user groups
              (filter_siblings (read_access sys nacm groups) (node n child next)).0
              (ap (λ (r : Forest × Bool). r.0)
                (filter_siblings_idem (read_access sys nacm groups) (node n child next))))
    ]

-- Where the user is checked and the groups are known, each node that is left is a key, or has full read
-- access, or a partial permit, or a partial deny with a readable node left below it; and below an inner
-- node with partial access the same holds of each node that is left. Of what is below a key or a node
-- with full access, which is not looked at, nothing is said.
pub check_data_read_filter-AllReadable :
    (sys : System) (nacm : Nacm) (user : CString) (groups : List CString) (n : NodeInfo)
    (child next : Forest)
    → collect_groups sys nacm user ≡ some groups
    → allowed_tree sys nacm n.schema user ≡ false
    → AllReadable
        (read_access sys nacm groups)
        (check_data_read_filter sys nacm user (node n child next))
unfolding check_data_read_filter
check_data_read_filter-AllReadable sys nacm user groups n child next e a =
    rw (e, a, check_data_read_filter, filter_tree)
      (filter_siblings-AllReadable (read_access sys nacm groups) (node n child next))

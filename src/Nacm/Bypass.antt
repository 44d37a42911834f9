-- ===== src/Nacm/Bypass.antt =====
-- Who passes the three checks of src/netconf_acm.c unchecked: ncac_check_operation,
-- ncac_check_data_read_filter and ncac_check_diff.
use netopeer.Common.{◌≡◌, ◌⊎◌, inl, inr, true, false, none, CString, arith, Option-cases}
use netopeer.Nacm.Types.{Nacm, NodeInfo, Forest, node, System, Schema}
use netopeer.Nacm.Users.{is_recovery, allowed_tree, collect_groups}
use netopeer.Nacm.Operation.{check_operation}
use netopeer.Nacm.ReadFilter.{filter_tree, check_data_read_filter}
use netopeer.Nacm.Diff.{allowed, check_diff}

module _ (sys : System) (nacm : Nacm) (user : CString) where
  -- Nothing is refused, filtered out or counted, whatever the data is.
  abbrev pub PassesAll : NodeInfo → Forest → Forest → Type 0
  PassesAll n child next =
      (check_operation sys nacm user n child next ≡ (nacm, allowed))
      × (check_data_read_filter sys nacm user (node n child next) ≡ node n child next)
      × (check_diff sys nacm user n child next ≡ (nacm, allowed))

  allowed_tree-exempt :
      (root : Schema)
      → (nacm.enabled ≡ false) ⊎ (is_recovery sys user ≡ true)
      → allowed_tree sys nacm root user ≡ true
  unfolding allowed_tree
  allowed_tree-exempt root (inl e) = ground (arith, e)
  allowed_tree-exempt root (inr e) = ground (arith, e)

  passes_allowed_tree :
      (n : NodeInfo) (child next : Forest)
      → allowed_tree sys nacm n.schema user ≡ true
      → PassesAll n child next
  unfolding check_operation check_data_read_filter filter_tree check_diff
  passes_allowed_tree n child next a = elim (Option-cases (collect_groups sys nacm user)) [
    | inl g ↦ (rw (a, check_operation), rw (g, check_data_read_filter), rw (g, check_diff))
    | inr (groups, g) ↦ (
      rw (a, check_operation),
      rw (g, a, check_data_read_filter, filter_tree),
      rw (g, a, check_diff),
    )
  ]

  -- With NACM disabled, or for the recovery user, all three checks pass whatever the rules are and
  -- whether or not the user's groups can be collected.
  pub exempt-PassesAll :
      (n : NodeInfo) (child next : Forest)
      → (nacm.enabled ≡ false) ⊎ (is_recovery sys user ≡ true)
      → PassesAll n child next
  exempt-PassesAll n child next h =
      passes_allowed_tree n child next (allowed_tree-exempt n.schema h)

  -- If the user's groups cannot be collected, all three checks pass, with NACM enabled and whatever
  -- the rules say.
  pub uncollected-PassesAll :
      (n : NodeInfo) (child next : Forest)
      → collect_groups sys nacm user ≡ none
      → PassesAll n child next
  unfolding check_operation check_data_read_filter check_diff
  uncollected-PassesAll n child next g =
      (ground (arith, g), rw (g, check_data_read_filter), rw (g, check_diff))

-- ===== src/Nacm/Diff/Complete.antt =====
-- Where ncac_check_diff misses no denial.
use netopeer.Common.{
  ◌≡◌, refl, ◌≢◌, ◌⊎◌, inl, inr, Bool, false, List, Option, none, some, CString, arith,
}
use netopeer.Nacm.Types.{Oper, Nacm, NodeInfo, Forest, nil, node, System}
use netopeer.Nacm.Users.{allowed_tree, collect_groups}
use netopeer.Nacm.Diff.{
  Outcome, allowed, aborted, denied, Required, nothing, unknown, broken, access, effective,
  required, goes_on, gives_node, gives_null, aborts, turn, go_on, check_siblings, check_diff,
}
use netopeer.Nacm.Diff.Denials.{DeniedAt, diff_permits}

-- Siblings without children.
abbrev pub IsFlat : Forest → Type 0
IsFlat nil = Unit
IsFlat (node n nil next) = Unit × IsFlat next
IsFlat (node n (node m below after) next) = ⊥ × IsFlat next

module _ (permits : Oper → NodeInfo → Bool) where
  -- No operation that the code does not know, and no node with children but the last one with any
  -- in each list of siblings.
  abbrev pub IsChain : Option CString → Forest → Type 0
  IsChain parent_op nil = Unit
  IsChain parent_op (node n child next) =
      (required (effective n.operation parent_op) ≢ unknown)
      × ((child ≡ nil) ⊎ IsFlat next)
      × IsChain (effective n.operation parent_op) child
      × IsChain parent_op next

  childless :
      (f : Forest) (found : Outcome) (parent_op : Option CString)
      → IsFlat f
      → IsChain parent_op f
      → check_siblings permits parent_op f found ≡ allowed
      → found ≡ allowed
  unfolding check_siblings
  childless nil found parent_op b c h = h
  childless (node n nil next) found parent_op b c h =
      ground (arith, childless next found parent_op b.1 c.3, c.0)
  childless (node n (node x below after) next) found parent_op b c h = absurd b.0

  only_allowed :
      (o : Outcome) (rest : Outcome → Outcome)
      → ((k : NodeInfo) → rest (denied k) ≢ allowed)
      → go_on o rest ≡ allowed
      → (o ≡ allowed) × (rest allowed ≡ allowed)
  only_allowed aborted rest no_more h = cc
  only_allowed allowed rest no_more h = (refl, h)
  only_allowed (denied k) rest no_more h = absurd (no_more k h)

  goes_on_of_allowed :
      (r : Required) (n : NodeInfo) (o : Outcome)
      → r ≢ unknown
      → (elim (turn permits r n) [
        | goes_on ↦ o
        | gives_node ↦ denied n
        | gives_null ↦ allowed
        | aborts ↦ aborted
      ])
        ≡ allowed
      → (turn permits r n ≡ goes_on) × (o ≡ allowed)
  goes_on_of_allowed nothing n o k h = (refl, h)
  goes_on_of_allowed unknown n o k h = absurd (k refl)
  goes_on_of_allowed broken n o k h = cc
  goes_on_of_allowed (access oper) n o k h = ground arith

  not_denied_here :
      (r : Required) (n : NodeInfo)
      → turn permits r n ≡ goes_on
      → ¬ ((oper : Oper) × (r ≡ access oper) × (permits oper n ≡ false))
  not_denied_here r n h (oper, e, f) = ground (arith, e, f)

  -- In a chain, an allowed diff holds no denied node.
  check_siblings_complete :
      (parent_op : Option CString) (f : Forest) (d : NodeInfo)
      → IsChain parent_op f
      → check_siblings permits parent_op f allowed ≡ allowed
      → ¬ (DeniedAt permits parent_op f d)
  unfolding check_siblings
  check_siblings_complete parent_op nil d c h k = k
  check_siblings_complete parent_op (node n nil next) d c h k =
      let r = required (effective n.operation parent_op) in
      let g = goes_on_of_allowed r n (check_siblings permits parent_op next allowed) c.0 h in
      elim k [
        | inl x ↦ not_denied_here r n g.0 (x.1, x.2, x.3)
        | inr (inl x) ↦ x
        | inr (inr x) ↦ check_siblings_complete parent_op next d c.3 g.1 x
      ]
  check_siblings_complete parent_op (node n (node m below after) next) d c h k =
      let op = effective n.operation parent_op in
      let rest = λ (o : Outcome). check_siblings permits parent_op next o in
      let child = check_siblings permits op (node m below after) allowed in
      let flat : IsFlat next = last_of c.1 in
      let g = goes_on_of_allowed (required op) n (go_on child rest) c.0 h in
      let o =
        only_allowed child rest (λ j e. never (childless next (denied j) parent_op flat c.3 e))
          g.1 in
      elim k [
        | inl x ↦ not_denied_here (required op) n g.0 (x.1, x.2, x.3)
        | inr (inl x) ↦
            check_siblings_complete (effective n.operation parent_op) (node m below after) d c.2 o.0
              x
        | inr (inr x) ↦ check_siblings_complete parent_op next d c.3 o.1 x
      ]
    where
      last_of : (node m below after ≡ nil) ⊎ IsFlat next → IsFlat next
      last_of (inl e) = cc
      last_of (inr x) = x

      never : {j : NodeInfo} → denied j ≡ allowed → ⊥
      never e = cc

-- Where no node is followed by a sibling with children unless it has none itself, and every
-- operation is known, a checked user's diff that is allowed holds no denied node.
pub check_diff_complete :
    (sys : System) (nacm : Nacm) (user : CString) (groups : List CString) (n d : NodeInfo)
    (child next : Forest)
    → collect_groups sys nacm user ≡ some groups
    → allowed_tree sys nacm n.schema user ≡ false
    → IsChain (diff_permits sys nacm groups) none (node n child next)
    → (check_diff sys nacm user n child next).1 ≡ allowed
    → ¬ (DeniedAt (diff_permits sys nacm groups) none (node n child next) d)
unfolding check_diff
check_diff_complete sys nacm user groups n d child next e a c h =
    check_siblings_complete (diff_permits sys nacm groups) none (node n child next) d c
      (ground (arith, e, a))

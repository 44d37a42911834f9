-- ===== src/Nacm/Diff/Forgotten.antt =====
-- Where ncac_check_diff forgets a denial.
use netopeer.Common.{◌≡◌, ap, ◌⊎◌, inl, inr, Bool, false, List, none, some, CString}
use netopeer.Nacm.Types.{Oper, Nacm, NodeInfo, Forest, nil, node, System}
use netopeer.Nacm.Users.{allowed_tree, collect_groups}
use netopeer.Nacm.Diff.{
  allowed, denied, effective, required, goes_on, turn, count_denied, check_siblings, check_diff,
}
use netopeer.Nacm.Diff.Denials.{DeniedAt, check_siblings_sound, diff_permits}

module _ (permits : Oper → NodeInfo → Bool) where
  check_siblings_forgets :
      (n e k c b : NodeInfo) (c1 c2 b1 b2 : Forest)
      → turn permits (required (effective n.operation none)) n ≡ goes_on
      → check_siblings permits (effective n.operation none) (node c c1 c2) allowed ≡ denied k
      → turn permits (required (effective e.operation none)) e ≡ goes_on
      → check_siblings permits (effective e.operation none) (node b b1 b2) allowed ≡ allowed
      → check_siblings permits none (node n (node c c1 c2) (node e (node b b1 b2) nil)) allowed
        ≡ allowed
  unfolding check_siblings
  check_siblings_forgets n e k c b c1 c2 b1 b2 tn cn te ce =
      rw (tn, check_siblings)
        (rw (cn, check_siblings) (rw (te, check_siblings) (rw (ce, check_siblings))))

-- A denial is forgotten: where the first node of a checked user's diff may be changed itself and a
-- node below it is denied, and the next and last sibling may be changed itself and has children
-- none of which is denied, the diff as a whole is allowed, the denied node in it.
pub check_diff_forgets :
    (sys : System) (nacm : Nacm) (user : CString) (groups : List CString) (n e k c b : NodeInfo)
    (c1 c2 b1 b2 : Forest)
    → collect_groups sys nacm user ≡ some groups
    → allowed_tree sys nacm n.schema user ≡ false
    → turn (diff_permits sys nacm groups) (required (effective n.operation none)) n ≡ goes_on
    → check_siblings
        (diff_permits sys nacm groups)
        (effective n.operation none)
        (node c c1 c2)
        allowed
      ≡ denied k
    → turn (diff_permits sys nacm groups) (required (effective e.operation none)) e ≡ goes_on
    → check_siblings
        (diff_permits sys nacm groups)
        (effective e.operation none)
        (node b b1 b2)
        allowed
      ≡ allowed
    → (check_diff sys nacm user n (node c c1 c2) (node e (node b b1 b2) nil) ≡ (nacm, allowed))
      × DeniedAt
          (diff_permits sys nacm groups)
          none
          (node n (node c c1 c2) (node e (node b b1 b2) nil))
          k
unfolding check_diff
check_diff_forgets sys nacm user groups n e k c b c1 c2 b1 b2 g a tn cn te ce = (
  rw (g, a, check_diff)
      (ap (count_denied nacm)
        (check_siblings_forgets (diff_permits sys nacm groups) n e k c b c1 c2 b1 b2 tn cn te ce)),
  inr (
      inl (
        below (
          check_siblings_sound (diff_permits sys nacm groups) (effective n.operation none)
            (node c c1 c2) allowed k cn))),
)
  where
    below : {P : Type 0} → (allowed ≡ denied k) ⊎ P → P
    below (inl x) = cc
    below (inr x) = x

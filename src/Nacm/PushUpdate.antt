-- ===== src/Nacm/PushUpdate.antt =====
-- ncac_check_yang_push_update_notif of src/netconf_acm.c: what a user may read of the edits of a
-- push-change-update notification.
pub mod Readable
use netopeer.Common.{
  ℕ, zero, suc, ◌+◌, ◌==◌, ◌||◌, Bool, true, false, List, [], ◌∷◌, length, Option, none, some,
  CString, if◌then◌else◌, ◌>>=◌,
}
use netopeer.Nacm.Types.{op_read, Nacm, NodeInfo, Forest, nil, node, System}
use netopeer.Nacm.Users.{allowed_tree, collect_groups}
use netopeer.Nacm.Operation.{permitted}
use netopeer.Nacm.ReadFilter.{node_stays, filter_siblings, read_access, filter_tree}

-- One edit: its target with the schema of the changed node, and the children of its value.
pub record PushEdit : Type 0 where
  pub target : NodeInfo
  pub children : Option Forest

abbrev pub siblings : Forest → ℕ
siblings nil = 0
siblings (node n child next) = suc (siblings next)

abbrev pub behind : Forest → Forest
behind nil = nil
behind (node n child next) = next

abbrev pub put_behind : Forest → Forest → Forest
put_behind nil f = f
put_behind (node n child next) f = node n child f

module _ (sys : System) (nacm : Nacm) (user : CString) (groups : List CString) where
  -- Whether a node is left when its siblings from `first` on are filtered.
  unfoldable pub is_left : NodeInfo → NodeInfo → Forest → Bool
  is_left first n child =
      allowed_tree sys nacm first.schema user
      || (node_stays (read_access sys nacm groups n) n.schema.nodetype
            (filter_siblings (read_access sys nacm groups) child).1
          || n.schema.is_key)

  -- LY_LIST_FOR_SAFE over the children, each round of which filters all siblings from there on; `none`
  -- is the use of a next sibling that was freed. The fuel is the number of siblings.
  unfoldable pub filter_values : ℕ → Forest → Option Forest
  unfolding is_left
  filter_values zero f = some f
  filter_values (suc fuel) nil = some nil
  filter_values (suc fuel) (node n child nil) =
      some (filter_tree sys nacm user groups (node n child nil))
  filter_values (suc fuel) (node n child (node m c next)) =
      let g = filter_tree sys nacm user groups (node n child (node m c next)) in
      let rest = filter_values fuel (behind g) in
      let all = filter_values fuel g in
      if is_left n m c
      then (if is_left n n child
          then elim rest [ none ↦ none | some f ↦ some (put_behind g f) ]
          else all)
      else none

  unfoldable pub filter_value : PushEdit → Option PushEdit
  unfolding filter_values
  filter_value e = elim e.children [
    | none ↦ some e
    | some f ↦ do left ← filter_values (siblings f) f; some (record e { children = some left })
  ]

  -- The edits that are left, and the number of those removed.
  unfoldable pub filter_edits : List PushEdit → Option (List PushEdit × ℕ)
  unfolding filter_value
  filter_edits [] = some ([], 0)
  filter_edits (e ∷ es) = do
    (left, removed) ← filter_edits es
    if permitted sys nacm op_read groups e.target
        then (do kept ← filter_value e; some (kept ∷ left, removed))
        else some (left, suc removed)

-- The edits left and all_removed, which is 0 before the call.
unfoldable pub check_yang_push_update_notif :
    System → Nacm → CString → List PushEdit → Option (List PushEdit × Bool)
unfolding filter_edits
check_yang_push_update_notif sys nacm user set = elim (collect_groups sys nacm user) [
  | none ↦ some (set, false)
  | some groups ↦ do
    (left, removed) ← filter_edits sys nacm user groups set
    some (left, removed == length set)
]

-- ===== src/Tests/Checks.antt =====
-- The checks of operations, of data that is read and of diffs.
use netopeer.Common.{
  ◌≡◌, refl, ◌++◌, inl, inr, true, false, List, arith, [], ◌∷◌, none, some, CString, lit, strcmp,
  str_eq,
}
use netopeer.Nacm.Types.{op_read, partial_permit, deny, container, leaf, rpc, NodeInfo, nil, node}
use netopeer.Nacm.GroupMatch.{rule_group_match}
use netopeer.Nacm.StrArr.{sort_add}
use netopeer.Nacm.Path.{allowed_path}
use netopeer.Nacm.Access.{rule_verdict, allowed_node, find_list, extension_denies}
use netopeer.Nacm.Access.Decision.{applicable, rfc_access, allowed_node-eq-rfc_access}
use netopeer.Nacm.Users.{allowed_tree, collect_groups}
use netopeer.Nacm.Operation.{find_op, check_operation}
use netopeer.Nacm.Operation.Checks.{Answers, check_operation-Answers}
use netopeer.Nacm.ReadFilter.Visible.{Occurs, check_data_read_filter_visible}
use netopeer.Nacm.ReadFilter.{read_access, check_data_read_filter}
use netopeer.Nacm.ReadFilter.Filtered.{AllReadable, check_data_read_filter-AllReadable}
use netopeer.Nacm.PushUpdate.{PushEdit, check_yang_push_update_notif}
use netopeer.Nacm.PushUpdate.Readable.{readable_edits, is_empty, push_update-readable}
use netopeer.Nacm.Diff.{allowed, required, check_siblings, check_diff}
use netopeer.Nacm.Diff.Denials.{DeniedAt, Reports, diff_permits, check_diff-Reports}
use netopeer.Nacm.Diff.Complete.{check_diff_complete}
use netopeer.Nacm.Diff.Forgotten.{check_diff_forgets}
use netopeer.Tests.Data.{
  a, o, sys, path_q, path_qs, read_rule, write_rule, nacm, schema_of, node_at, q_node, s_node,
}

-- All that a check runs.
program : Unit {0}
unfolding rule_group_match sort_add strcmp str_eq lit allowed_path rule_verdict allowed_node
    find_list extension_denies allowed_tree collect_groups find_op check_operation
    check_data_read_filter required check_siblings check_diff
program = tt

own_groups : collect_groups sys nacm a ≡ some (o ∷ [])
unfolding program
own_groups = refl

read_q : allowed_node sys nacm path_q (schema_of container) op_read (o ∷ []) ≡ partial_permit
unfolding program
read_q = refl

read_s : allowed_node sys nacm path_qs (schema_of leaf) op_read (o ∷ []) ≡ deny
unfolding program
read_s = refl

allowed_node-eq-rfc_access_example :
    allowed_node sys nacm path_q (schema_of container) op_read (o ∷ [])
    ≡ rfc_access sys nacm path_q (schema_of container) op_read (o ∷ [])
allowed_node-eq-rfc_access_example =
    allowed_node-eq-rfc_access sys nacm path_q (schema_of container) op_read (o ∷ [])

q_rules :
    applicable (o ∷ []) nacm.rule_lists
    ≡ (read_rule true path_qs ∷ []) ++ read_rule false path_q ∷ write_rule ∷ []
unfolding program
q_rules = refl

-- The leaf goes, its container stays.
filtered :
    check_data_read_filter sys nacm a (node q_node (node s_node nil nil) nil) ≡ node q_node nil nil
unfolding program
filtered = refl

check_data_read_filter-AllReadable_example :
    AllReadable
      (read_access sys nacm (o ∷ []))
      (check_data_read_filter sys nacm a (node q_node (node s_node nil nil) nil))
unfolding program
check_data_read_filter-AllReadable_example =
    check_data_read_filter-AllReadable sys nacm a (o ∷ []) q_node (node s_node nil nil) nil refl
      refl

check_data_read_filter_visible_example :
    Occurs (check_data_read_filter sys nacm a (node q_node (node s_node nil nil) nil)) q_node
unfolding program
check_data_read_filter_visible_example =
    check_data_read_filter_visible sys nacm a (o ∷ []) q_node q_node (node s_node nil nil) nil refl
      refl (inl (refl, inr refl))

-- Changes of the container with its leaf, and of the leaf.
abbrev edits : List PushEdit
edits =
    record { target = q_node; children = some (node s_node nil nil) }
    ∷ record { target = s_node; children = none }
    ∷ []

push_update-readable_example :
    check_yang_push_update_notif sys nacm a edits
    ≡ some (
      readable_edits sys nacm a (o ∷ []) edits,
      is_empty (readable_edits sys nacm a (o ∷ []) edits),
    )
unfolding program
push_update-readable_example =
    push_update-readable sys nacm a (o ∷ []) edits refl (omega arith, (tt, tt))

-- The second of two leaves is freed with the first, and then used.
use_after_free :
    check_yang_push_update_notif sys nacm a
      (record { target = q_node; children = some (node s_node nil (node s_node nil nil)) } ∷ [])
    ≡ none
unfolding program check_yang_push_update_notif
use_after_free = refl

-- An RPC, and an action below data that may not be read.
abbrev reboot : NodeInfo
reboot = node_at rpc (b'/' ∷ b'r' ∷ [])

check_operation-Answers_example :
    Answers sys nacm a reboot nil nil (check_operation sys nacm a reboot nil nil)
check_operation-Answers_example = check_operation-Answers sys nacm a reboot nil nil

-- Diff nodes: containers that are left alone, a leaf that may not be replaced and one that may.
abbrev kept : CString → NodeInfo
kept path = record (node_at container path) { operation = some (lit "none") }

abbrev replaced : CString → NodeInfo
replaced path = record (node_at leaf path) { operation = some (lit "replace") }

abbrev other_path : CString
other_path = b'/' ∷ b'e' ∷ []

check_diff-Reports_example :
    Reports sys nacm a
      (node (kept other_path) (node (replaced path_q) nil nil) nil)
      (check_diff sys nacm a (kept other_path) (node (replaced path_q) nil nil) nil)
check_diff-Reports_example =
    check_diff-Reports sys nacm a (kept other_path) (node (replaced path_q) nil nil) nil

check_diff_complete_example : ¬ (
    DeniedAt
      (diff_permits sys nacm (o ∷ []))
      none
      (node (kept other_path) (node (replaced other_path) nil nil) nil)
      (replaced other_path))
unfolding program
check_diff_complete_example =
    check_diff_complete sys nacm a (o ∷ []) (kept other_path) (replaced other_path)
      (node (replaced other_path) nil nil) nil refl refl
      ((λ e. cc), inr tt, ((λ e. cc), inl refl, tt, tt), tt) refl

check_diff_forgets_example :
    (check_diff sys nacm a
        (kept other_path)
        (node (replaced path_q) nil nil)
        (node (kept other_path) (node (replaced other_path) nil nil) nil)
      ≡ (nacm, allowed))
    × DeniedAt
        (diff_permits sys nacm (o ∷ []))
        none
        (node
          (kept other_path)
          (node (replaced path_q) nil nil)
          (node (kept other_path) (node (replaced other_path) nil nil) nil))
        (replaced path_q)
unfolding program
check_diff_forgets_example =
    check_diff_forgets sys nacm a (o ∷ []) (kept other_path) (kept other_path) (replaced path_q)
      (replaced path_q) (replaced other_path) nil nil nil nil refl refl refl refl refl refl

-- ===== src/Nacm/Events/Reachable.antt =====
-- Every state that the callbacks and the checks of src/netconf_acm.c can lead to.
use netopeer.Common.{
  ◌≡◌, refl, subst, sym, inl, inr, Bool, true, false, List, [], ◌∷◌, Option, none, some, CString,
  arith, All, Option-cases, if◌then◌else◌,
}
use netopeer.Nacm.Types.{Group, RuleList, Nacm, NodeInfo, Forest, node, System}
use netopeer.Nacm.StrArr.Order.{IsSorted}
use netopeer.Nacm.GroupMatch.{rule_group_match, Shares, rule_group_match_complete}
use netopeer.Nacm.Users.{collect_groups}
use netopeer.Nacm.Users.Collected.{Collects, memberships, external, collect_groups-Collects}
use netopeer.Nacm.Operation.{count_denied, check_operation}
use netopeer.Nacm.Operation.Checks.{Answers, check_operation-Answers}
use netopeer.Nacm.Diff.{Outcome, allowed, aborted, denied, check_diff}
use netopeer.Nacm.Diff.Denials.{Reports, check_diff-Reports}
use netopeer.Nacm.Ordered.{find_item}
use netopeer.Nacm.Ordered.Moved.{find_item-All}
use netopeer.Nacm.Params.{ParamChange, param_step, nacm_params_cb}
use netopeer.Nacm.Groups.{
  GroupChange, on_group, on_user, on_other, with_groups, user_step, group_step, group_cb,
  find_group,
}
use netopeer.Nacm.RuleLists.{list_name, rule_list_step, rule_list_cb}
use netopeer.Nacm.Rules.{rule_step, rule_cb}
use netopeer.Nacm.Events.{
  Event, params, groups, rule_lists, rules, operation, diff, handle, run, initial,
}
use netopeer.Nacm.Events.Invariant.{
  IsWellFormed, IsListed, rule_list_step-IsWellFormed, rule_step-IsWellFormed,
}
use netopeer.Sysrepo.{
  ChangeOp, created, modified, deleted, moved, is_deleted, assertion, go, stop, state_of,
  callback_inv,
}

param_step-rule_lists :
    (nacm : Nacm) (c : ParamChange) → (state_of (param_step nacm c)).rule_lists ≡ nacm.rule_lists
unfolding param_step
param_step-rule_lists nacm c = ground arith

with_groups-rule_lists :
    (nacm : Nacm) (o : Option (List Group))
    → (state_of (with_groups nacm o)).rule_lists ≡ nacm.rule_lists
with_groups-rule_lists nacm none = refl
with_groups-rule_lists nacm (some gs) = refl

user_step-rule_lists :
    (nacm : Nacm) (op : ChangeOp) (name user : CString) (g : Group)
    → (state_of (user_step nacm op name user g)).rule_lists ≡ nacm.rule_lists
unfolding user_step
user_step-rule_lists nacm created name user g = ground arith
user_step-rule_lists nacm deleted name user g = ground arith
user_step-rule_lists nacm modified name user g = refl
user_step-rule_lists nacm moved name user g = refl

group_step-rule_lists :
    (nacm : Nacm) (c : GroupChange) → (state_of (group_step nacm c)).rule_lists ≡ nacm.rule_lists
unfolding group_step
group_step-rule_lists nacm (on_group created name) = refl
group_step-rule_lists nacm (on_group deleted name) = ground arith
group_step-rule_lists nacm (on_group modified name) = refl
group_step-rule_lists nacm (on_group moved name) = refl
group_step-rule_lists nacm (on_user op name user) =
    elim (Option-cases (find_group name nacm.groups)) [
      | inl e ↦ rw (e, group_step) (missing (is_deleted op))
      | inr (g, e) ↦ rw (e, group_step) (user_step-rule_lists nacm op name user g)
    ]
  where
    missing :
        (b : Bool)
        → (state_of (if b then go nacm else stop nacm assertion)).rule_lists ≡ nacm.rule_lists
    missing true = refl
    missing false = refl
group_step-rule_lists nacm (on_other op name) = refl

Answers-IsWellFormed :
    (sys : System) (nacm : Nacm) (user : CString) (top : NodeInfo) (child next : Forest)
    (r : Nacm × Outcome)
    → Answers sys nacm user top child next r
    → IsWellFormed nacm
    → IsWellFormed r.0
Answers-IsWellFormed sys nacm user top child next (after, allowed) a w =
    subst IsWellFormed (sym a.0) w
Answers-IsWellFormed sys nacm user top child next (after, aborted) a w =
    subst IsWellFormed (sym a.0) w
Answers-IsWellFormed sys nacm user top child next (after, denied op) a w =
    let same : (count_denied nacm op.schema.nodetype).rule_lists ≡ nacm.rule_lists = ground arith in
    subst IsWellFormed (sym a.0) (subst (All IsListed) (sym same) w)

Reports-IsWellFormed :
    (sys : System) (nacm : Nacm) (user : CString) (f : Forest) (r : Nacm × Outcome)
    → Reports sys nacm user f r
    → IsWellFormed nacm
    → IsWellFormed r.0
Reports-IsWellFormed sys nacm user f (after, allowed) a w = subst IsWellFormed (sym a) w
Reports-IsWellFormed sys nacm user f (after, aborted) a w = subst IsWellFormed (sym a) w
Reports-IsWellFormed sys nacm user f (after, denied d) a w = subst IsWellFormed (sym a.0) w

handle-IsWellFormed : (nacm : Nacm) (e : Event) → IsWellFormed nacm → IsWellFormed (handle nacm e)
unfolding handle nacm_params_cb group_cb rule_list_cb rule_cb
handle-IsWellFormed nacm (params cs) w =
    callback_inv param_step IsWellFormed
      (λ s c h. subst (All IsListed) (sym (param_step-rule_lists s c)) h) nacm cs w
handle-IsWellFormed nacm (groups cs) w =
    callback_inv group_step IsWellFormed
      (λ s c h. subst (All IsListed) (sym (group_step-rule_lists s c)) h) nacm cs w
handle-IsWellFormed nacm (rule_lists cs) w =
    callback_inv rule_list_step IsWellFormed rule_list_step-IsWellFormed nacm cs w
handle-IsWellFormed nacm (rules cs) w =
    callback_inv rule_step IsWellFormed rule_step-IsWellFormed nacm cs w
handle-IsWellFormed nacm (operation sys user top child next) w =
    Answers-IsWellFormed sys nacm user top child next (check_operation sys nacm user top child next)
      (check_operation-Answers sys nacm user top child next) w
handle-IsWellFormed nacm (diff sys user n child next) w =
    Reports-IsWellFormed sys nacm user (node n child next) (check_diff sys nacm user n child next)
      (check_diff-Reports sys nacm user n child next) w

run-IsWellFormed : (nacm : Nacm) (es : List Event) → IsWellFormed nacm → IsWellFormed (run nacm es)
unfolding run
run-IsWellFormed nacm [] w = w
run-IsWellFormed nacm (e ∷ es) w =
    run-IsWellFormed (handle nacm e) es (handle-IsWellFormed nacm e w)

-- From the initial state, whatever changes and checks follow, also where a callback fails midway,
-- the groups of each rule list are sorted, and each rule for any node has no target.
pub reachable-IsWellFormed : (es : List Event) → IsWellFormed (run initial es)
reachable-IsWellFormed es = run-IsWellFormed initial es tt

-- Whatever changes and checks came before, a rule list found by its name that has one of the groups
-- collected for a user is matched.
pub reachable_match :
    (es : List Event) (sys : System) (user key : CString) (gs : List CString) (l : RuleList)
    → collect_groups sys (run initial es) user ≡ some gs
    → find_item list_name key (run initial es).rule_lists ≡ some l
    → Shares l.groups gs
    → rule_group_match l.groups gs ≡ true
reachable_match es sys user key gs l c f s =
    let w =
      find_item-All list_name IsListed key (run initial es).rule_lists l f
        (reachable-IsWellFormed es) in
    rule_group_match_complete l.groups gs w.0
      (sorted (external sys (run initial es) user)
        (collect_groups-Collects sys (run initial es) user))
      s
  where
    ms : List CString
    ms = memberships user (run initial es).groups

    sorted :
        (names : Option (List CString))
        → Collects names ms (collect_groups sys (run initial es) user)
        → IsSorted gs
    sorted none k = absurd (subst (Collects none ms) c k)
    sorted (some ns) k = (subst (Collects (some ns) ms) c k).0

-- ===== src/Nacm/Events/Invariant.antt =====
-- The groups of each rule list are always sorted, and a rule for any node never has a target.
use netopeer.Common.{
  ◌≡◌, refl, subst, inl, inr, Bool, true, false, List, [], Option, none, some, CString, arith, All,
  Bool-cases, Option-cases, if◌then◌else◌, str_eq, lit, ◌&&◌,
}
use netopeer.Nacm.Types.{target_any, Rule, RuleList, Nacm}
use netopeer.Nacm.StrArr.{sort_add, sort_del}
use netopeer.Nacm.StrArr.Order.{IsSorted}
use netopeer.Nacm.StrArr.Insert.{Deletes, sort_add-Adds, sort_del-Deletes}
use netopeer.Nacm.Ordered.{find_item, change_item, place, move_item, delete_item}
use netopeer.Nacm.Ordered.Moved.{
  place-All, move_item-All, delete_item-All, change_item-All, find_item-All,
}
use netopeer.Nacm.RuleLists.{RuleListChange, list_name, with_lists, list_group_step, rule_list_step}
use netopeer.Nacm.Rules.{
  RuleChange, on_rule, on_leaf, rule_name, new_rule, set_leaf, with_rules, ordered_step, leaf_step,
  is_moved, rule_step,
}
use netopeer.Sysrepo.{
  ChangeOp, created, modified, deleted, moved, is_deleted, assertion, go, stop, state_of,
}

abbrev pub IsTargeted : Rule → Type 0
IsTargeted r = r.target_type ≡ target_any → r.target ≡ none

abbrev pub IsListed : RuleList → Type 0
IsListed l = IsSorted l.groups × All IsTargeted l.rules

-- What holds of the state between two calls.
abbrev pub IsWellFormed : Nacm → Type 0
IsWellFormed nacm = All IsListed nacm.rule_lists

with_lists-IsWellFormed :
    (nacm : Nacm) (o : Option (List RuleList))
    → IsWellFormed nacm
    → ((ls : List RuleList) → o ≡ some ls → All IsListed ls)
    → IsWellFormed (state_of (with_lists nacm o))
with_lists-IsWellFormed nacm none w keep = w
with_lists-IsWellFormed nacm (some ls) w keep = keep ls refl

list_group_step-IsWellFormed :
    (nacm : Nacm) (op : ChangeOp) (key group : CString) (l : RuleList)
    → IsWellFormed nacm
    → IsListed l
    → IsWellFormed (state_of (list_group_step nacm op key group l))
unfolding list_group_step
list_group_step-IsWellFormed nacm created key group l w h =
    change_item-All list_name IsListed key
      (λ k. record k { groups = sort_add false group l.groups }) nacm.rule_lists
      (λ k p. ((sort_add-Adds false group l.groups h.0).0, p.1)) w
list_group_step-IsWellFormed nacm deleted key group l w h =
    elim (Option-cases (sort_del group l.groups)) [
      | inl e ↦ rw (e, list_group_step) w
      | inr (gs, e) ↦
          let d : Deletes group l.groups (some gs) =
            subst (Deletes group l.groups) e (sort_del-Deletes group l.groups h.0) in
          rw (e, list_group_step)
            (change_item-All list_name IsListed key (λ k. record k { groups = gs }) nacm.rule_lists
              (λ k p. (d.0, p.1)) w)
    ]
list_group_step-IsWellFormed nacm modified key group l w h = w
list_group_step-IsWellFormed nacm moved key group l w h = w

missing-IsWellFormed :
    (nacm : Nacm) (b : Bool)
    → IsWellFormed nacm
    → IsWellFormed (state_of (if b then go nacm else stop nacm assertion))
missing-IsWellFormed nacm true w = w
missing-IsWellFormed nacm false w = w

pub rule_list_step-IsWellFormed :
    (nacm : Nacm) (c : RuleListChange)
    → IsWellFormed nacm
    → IsWellFormed (state_of (rule_list_step nacm c))
unfolding rule_list_step
rule_list_step-IsWellFormed nacm (RuleListChange.on_list created key prev) w =
    let new : RuleList = record { name = key; groups = []; rules = [] } in
    with_lists-IsWellFormed nacm (place list_name prev new nacm.rule_lists) w
      (λ ls e. place-All list_name IsListed prev new nacm.rule_lists ls e (tt, tt) w)
rule_list_step-IsWellFormed nacm (RuleListChange.on_list deleted key prev) w =
    with_lists-IsWellFormed nacm (delete_item list_name key nacm.rule_lists) w
      (λ ls e. delete_item-All list_name IsListed key nacm.rule_lists ls e w)
rule_list_step-IsWellFormed nacm (RuleListChange.on_list moved key prev) w =
    with_lists-IsWellFormed nacm (move_item list_name key prev nacm.rule_lists) w
      (λ ls e. move_item-All list_name IsListed key prev nacm.rule_lists ls e w)
rule_list_step-IsWellFormed nacm (RuleListChange.on_list modified key prev) w = w
rule_list_step-IsWellFormed nacm (RuleListChange.on_group op key group) w =
    elim (Option-cases (find_item list_name key nacm.rule_lists)) [
      | inl e ↦ rw (e, rule_list_step) (missing-IsWellFormed nacm (is_deleted op) w)
      | inr (l, e) ↦
          rw (e, rule_list_step)
            (list_group_step-IsWellFormed nacm op key group l w
              (find_item-All list_name IsListed key nacm.rule_lists l e w))
    ]
rule_list_step-IsWellFormed nacm (RuleListChange.on_other op key) w = w

-- A node below a rule sets the target and its type together.
pub set_leaf-IsTargeted :
    (op : ChangeOp) (leaf value : CString) (r : Rule)
    → IsTargeted r
    → IsTargeted (set_leaf op leaf value r)
unfolding set_leaf
set_leaf-IsTargeted op leaf value r h = ground arith

with_rules-IsWellFormed :
    (nacm : Nacm) (key : CString) (o : Option (List Rule))
    → IsWellFormed nacm
    → ((rs : List Rule) → o ≡ some rs → All IsTargeted rs)
    → IsWellFormed (state_of (with_rules nacm key o))
unfolding with_rules
with_rules-IsWellFormed nacm key none w keep = w
with_rules-IsWellFormed nacm key (some rs) w keep =
    change_item-All list_name IsListed key (λ l. record l { rules = rs }) nacm.rule_lists
      (λ l p. (p.0, keep rs refl)) w

ordered_step-IsWellFormed :
    (nacm : Nacm) (op : ChangeOp) (list_key key prev : CString) (l : RuleList)
    → IsWellFormed nacm
    → IsListed l
    → IsWellFormed (state_of (ordered_step nacm op list_key key prev l))
unfolding ordered_step
ordered_step-IsWellFormed nacm created list_key key prev l w h =
    with_rules-IsWellFormed nacm list_key (place rule_name prev (new_rule key) l.rules) w
      (λ rs e. place-All rule_name IsTargeted prev (new_rule key) l.rules rs e (λ _. refl) h.1)
ordered_step-IsWellFormed nacm deleted list_key key prev l w h =
    with_rules-IsWellFormed nacm list_key (delete_item rule_name key l.rules) w
      (λ rs e. delete_item-All rule_name IsTargeted key l.rules rs e h.1)
ordered_step-IsWellFormed nacm moved list_key key prev l w h =
    with_rules-IsWellFormed nacm list_key (move_item rule_name key prev l.rules) w
      (λ rs e. move_item-All rule_name IsTargeted key prev l.rules rs e h.1)
ordered_step-IsWellFormed nacm modified list_key key prev l w h = w

leaf_step-IsWellFormed :
    (nacm : Nacm) (op : ChangeOp) (list_key key leaf value : CString) (l : RuleList)
    → IsWellFormed nacm
    → IsListed l
    → IsWellFormed (state_of (leaf_step nacm op list_key key leaf value l))
unfolding leaf_step
leaf_step-IsWellFormed nacm op list_key key leaf value l w h =
    elim (Option-cases (find_item rule_name key l.rules)) [
      | inl e ↦ rw (e, leaf_step) (missing-IsWellFormed nacm (is_deleted op) w)
      | inr (r, e) ↦ elim (Bool-cases (str_eq leaf (lit "comment") && is_moved op)) [
        | inl m ↦ rw (e, m, leaf_step) w
        | inr m ↦
            rw (e, m, leaf_step)
              (with_rules-IsWellFormed nacm list_key
                (some (change_item rule_name key (set_leaf op leaf value) l.rules)) w
                (λ rs s. changed rs s))
      ]
    ]
  where
    changed :
        (rs : List Rule)
        → some (change_item rule_name key (set_leaf op leaf value) l.rules) ≡ some rs
        → All IsTargeted rs
    changed rs s =
        let same : change_item rule_name key (set_leaf op leaf value) l.rules ≡ rs = ground arith in
        subst (All IsTargeted) same (
          change_item-All rule_name IsTargeted key (set_leaf op leaf value) l.rules
            (set_leaf-IsTargeted op leaf value) h.1)

pub rule_step-IsWellFormed :
    (nacm : Nacm) (c : RuleChange) → IsWellFormed nacm → IsWellFormed (state_of (rule_step nacm c))
unfolding rule_step
rule_step-IsWellFormed nacm (on_rule op list_key key prev) w =
    elim (Option-cases (find_item list_name list_key nacm.rule_lists)) [
      | inl e ↦ rw (e, rule_step) (missing-IsWellFormed nacm (is_deleted op) w)
      | inr (l, e) ↦
          rw (e, rule_step)
            (ordered_step-IsWellFormed nacm op list_key key prev l w
              (find_item-All list_name IsListed list_key nacm.rule_lists l e w))
    ]
rule_step-IsWellFormed nacm (on_leaf op list_key key leaf value) w =
    elim (Option-cases (find_item list_name list_key nacm.rule_lists)) [
      | inl e ↦ rw (e, rule_step) (missing-IsWellFormed nacm (is_deleted op) w)
      | inr (l, e) ↦
          rw (e, rule_step)
            (leaf_step-IsWellFormed nacm op list_key key leaf value l w
              (find_item-All list_name IsListed list_key nacm.rule_lists l e w))
    ]

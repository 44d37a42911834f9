-- ===== src/Nacm/Access/Decision.antt =====
-- The decision of ncac_allowed_node against section 3.4.4 of RFC 8341.
use netopeer.Common.{
  ◌≡◌, refl, sym, subst, inl, inr, Bool, true, false, ◌||◌, not, List, [], ◌∷◌, ◌++◌, Option, none,
  some, CString, arith, if◌then◌else◌, Bool-cases,
}
use netopeer.Nacm.Types.{
  Oper, Rule, RuleList, Nacm, Access, deny, partial_deny, partial_permit, permit, Schema, System,
}
use netopeer.Nacm.GroupMatch.{rule_group_match}
use netopeer.Nacm.Access.{
  Verdict, skip, partial, hit, rule_verdict, Partial, Found, add_partial, find_rule, find_list,
  extension_denies, default_deny, allowed_node, no_partial,
}

-- The rules of all rule lists for one of the user's groups, in their order.
abbrev pub applicable : List CString → List RuleList → List Rule
applicable groups [] = []
applicable groups (rlist ∷ rlists) =
    if rule_group_match rlist.groups groups
    then rlist.rules ++ applicable groups rlists
    else applicable groups rlists

module _ (verdict : Rule → Verdict) where
  -- The action of the first rule that matches.
  abbrev pub first_action : List Rule → Option Bool
  first_action [] = none
  first_action (rule ∷ rules) = elim (verdict rule) [
    | hit ↦ some rule.action_deny
    | skip ↦ first_action rules
    | partial ↦ first_action rules
  ]

  -- Whether a rule with the action matches partially before the first rule that matches.
  abbrev pub has_partial : Bool → List Rule → Bool
  has_partial action [] = false
  has_partial action (rule ∷ rules) = elim (verdict rule) [
    | hit ↦ false
    | skip ↦ has_partial action rules
    | partial ↦
        (if action then rule.action_deny else not rule.action_deny) || has_partial action rules
  ]

  abbrev outcome : List Rule → Partial → Found
  outcome rules p = record {
    action_deny = first_action rules;
    partials = record {
      permits = p.permits || has_partial false rules;
      denies = p.denies || has_partial true rules;
    };
  }

  find_rule-eq : (rules : List Rule) (p : Partial) → find_rule verdict rules p ≡ outcome rules p
  unfolding find_rule
  find_rule-eq [] p = ground arith
  find_rule-eq (rule ∷ rules) p =
      ground (arith, find_rule-eq rules p, find_rule-eq rules (add_partial rule.action_deny p))

  find_rule-append :
      (xs ys : List Rule) (p : Partial)
      → find_rule verdict (xs ++ ys) p ≡ (elim (find_rule verdict xs p).action_deny [
        | none ↦ find_rule verdict ys (find_rule verdict xs p).partials
        | some _ ↦ find_rule verdict xs p
      ])
  unfolding find_rule
  find_rule-append [] ys p = refl
  find_rule-append (x ∷ xs) ys p =
      ground (arith, find_rule-append xs ys p, find_rule-append xs ys (add_partial x.action_deny p))

  -- The two loops go over the applicable rules.
  find_list-eq :
      (groups : List CString) (rlists : List RuleList) (p : Partial)
      → find_list verdict groups rlists p ≡ find_rule verdict (applicable groups rlists) p
  unfolding find_list find_rule
  find_list-eq groups [] p = refl
  find_list-eq groups (rlist ∷ rlists) p =
      elim (Bool-cases (rule_group_match rlist.groups groups)) [
        | inr e ↦ rw (e, find_list) (find_list-eq groups rlists p)
        | inl e ↦
            rw (e, find_list)
              (ground (
                arith,
                find_rule-append rlist.rules (applicable groups rlists) p,
                find_list-eq groups rlists (find_rule verdict rlist.rules p).partials,
              ))
      ]

applicable-nil : (rlists : List RuleList) → applicable [] rlists ≡ []
unfolding rule_group_match
applicable-nil [] = refl
applicable-nil (rlist ∷ rlists) = ground (arith, no_groups rlist.groups, applicable-nil rlists)
  where
    no_groups : (rs : List CString) → rule_group_match rs [] ≡ false
    no_groups [] = refl
    no_groups (r ∷ rs) = refl

-- Step 10 to 12: no rule has matched.
abbrev pub default_denied : Nacm → Schema → Oper → Bool
default_denied nacm schema oper = extension_denies oper schema.extensions || default_deny nacm oper

-- The access by the first rule that matches, or else by the extensions and the defaults; partial
-- where a rule before it is about descendants of the node and has the other action.
abbrev pub rule_access : Nacm → Schema → Oper → (Rule → Verdict) → List Rule → Access
rule_access nacm schema oper verdict rules =
    let refused = if has_partial verdict false rules then partial_deny else deny in
    elim (first_action verdict rules) [
      | some denied ↦
          if denied
          then refused
          else if has_partial verdict true rules
          then partial_permit
          else permit
      | none ↦ if default_denied nacm schema oper then refused else partial_permit
    ]

abbrev pub rfc_access : System → Nacm → CString → Schema → Oper → List CString → Access
rfc_access sys nacm path schema oper groups =
    rule_access nacm schema oper (rule_verdict sys schema path oper)
      (applicable groups nacm.rule_lists)

-- ncac_allowed_node decides by the first matching rule of the applicable rule lists, and by the
-- extensions and defaults if there is none; partial matches before it make the access partial.
pub allowed_node-eq-rfc_access :
    (sys : System) (nacm : Nacm) (path : CString) (schema : Schema) (oper : Oper)
    (groups : List CString)
    → allowed_node sys nacm path schema oper groups ≡ rfc_access sys nacm path schema oper groups
unfolding allowed_node
allowed_node-eq-rfc_access sys nacm path schema oper [] =
    let v = rule_verdict sys schema path oper in
    subst
      (λ rules. allowed_node sys nacm path schema oper [] ≡ rule_access nacm schema oper v rules)
      (sym (applicable-nil nacm.rule_lists)) (ground arith)
allowed_node-eq-rfc_access sys nacm path schema oper (g ∷ gs) =
    let v = rule_verdict sys schema path oper in
    rw
      (
        find_list-eq v (g ∷ gs) nacm.rule_lists no_partial,
        find_rule-eq v (applicable (g ∷ gs) nacm.rule_lists) no_partial,
      )
      (ground arith)

-- ===== src/Nacm/Diff/Denials.antt =====
-- What ncac_check_diff reports is denied.
use netopeer.Common.{
  ◌≡◌, refl, subst, ◌⊎◌, inl, inr, Bool, false, List, Option, none, some, CString, arith,
  Bool-cases, Option-cases, incr32,
}
use netopeer.Nacm.Types.{Oper, Nacm, NodeInfo, Forest, nil, node, System}
use netopeer.Nacm.Operation.{permitted}
use netopeer.Nacm.Users.{allowed_tree, collect_groups}
use netopeer.Nacm.Diff.{
  Outcome, allowed, aborted, denied, Required, nothing, unknown, broken, access, effective,
  required, goes_on, gives_node, gives_null, aborts, turn, go_on, count_denied, check_siblings,
  check_diff,
}

module _ (permits : Oper → NodeInfo → Bool) where
  -- The node `d` of a diff asks for an access that is not permitted.
  abbrev pub DeniedAt : Option CString → Forest → NodeInfo → Type 0
  DeniedAt parent_op nil d = ⊥
  DeniedAt parent_op (node n child next) d =
      ((n ≡ d)
        × (oper : Oper) × (required (effective n.operation parent_op) ≡ access oper)
        × (permits oper n ≡ false))
      ⊎ DeniedAt (effective n.operation parent_op) child d
      ⊎ DeniedAt parent_op next d

  gives_node-denied :
      (r : Required) (n : NodeInfo)
      → turn permits r n ≡ gives_node
      → (oper : Oper) × (r ≡ access oper) × (permits oper n ≡ false)
  gives_node-denied nothing n h = cc
  gives_node-denied unknown n h = cc
  gives_node-denied broken n h = cc
  gives_node-denied (access oper) n h = (oper, refl, ground arith)

  denied-injective : (k d : NodeInfo) → denied k ≡ denied d → k ≡ d
  denied-injective k d e = cc

  after_child :
      (o : Outcome) (rest : Outcome → Outcome) (Below : NodeInfo → Type 0) (Later : Type 0)
      (d : NodeInfo)
      → ((k : NodeInfo) → o ≡ denied k → Below k)
      → ((r : Outcome) → rest r ≡ denied d → (r ≡ denied d) ⊎ Later)
      → go_on o rest ≡ denied d
      → Below d ⊎ Later
  after_child aborted rest Below Later d below later h = cc
  after_child allowed rest Below Later d below later h = elim (later allowed h) [
    | inl e ↦ cc e
    | inr x ↦ inr x
  ]
  after_child (denied k) rest Below Later d below later h = elim (later (denied k) h) [
    | inl e ↦ inl (subst Below (denied-injective k d e) (below k refl))
    | inr x ↦ inr x
  ]

  by_turn :
      (n : NodeInfo) (parent_op : Option CString) (child next : Forest) (d : NodeInfo) {o : Outcome}
      {found : Outcome} (r : Required)
      → required (effective n.operation parent_op) ≡ r
      → (o ≡ denied d
          → DeniedAt (effective n.operation parent_op) child d ⊎ DeniedAt parent_op next d)
      → (elim (turn permits r n) [
        | goes_on ↦ o
        | gives_node ↦ denied n
        | gives_null ↦ allowed
        | aborts ↦ aborted
      ])
        ≡ denied d
      → (found ≡ denied d) ⊎ DeniedAt parent_op (node n child next) d
  by_turn n parent_op child next d nothing e k h = inr (inr (k h))
  by_turn n parent_op child next d unknown e k h = cc
  by_turn n parent_op child next d broken e k h = cc
  by_turn n parent_op child next d (access oper) e k h = elim (Bool-cases (permits oper n)) [
    | inl a ↦ inr (inr (k (rw a at h)))
    | inr a ↦ inr (inl (denied-injective n d (rw a at h), oper, e, a))
  ]

  -- A node reported is one that asks for an access that is not permitted, or was given before.
  pub check_siblings_sound :
      (parent_op : Option CString) (f : Forest) (found : Outcome) (d : NodeInfo)
      → check_siblings permits parent_op f found ≡ denied d
      → (found ≡ denied d) ⊎ DeniedAt parent_op f d
  unfolding check_siblings
  check_siblings_sound parent_op nil found d h = inl h
  check_siblings_sound parent_op (node n nil next) found d h = ground (
    arith,
    gives_node-denied (required (effective n.operation parent_op)) n,
    check_siblings_sound parent_op next found d,
  )
  check_siblings_sound parent_op (node n (node c below after) next) found d h =
      let op = effective n.operation parent_op in
      by_turn n parent_op (node c below after) next d (required op) refl
        (after_child (check_siblings permits op (node c below after) allowed)
          (check_siblings permits parent_op next) (DeniedAt op (node c below after))
          (DeniedAt parent_op next d) d
          (λ k e. reported k (check_siblings_sound op (node c below after) allowed k e))
          (λ o e. check_siblings_sound parent_op next o d e))
        h
    where
      reported : (k : NodeInfo) {P : Type 0} → (allowed ≡ denied k) ⊎ P → P
      reported k (inl e) = cc
      reported k (inr x) = x

-- The permissions that ncac_check_diff goes by, once the user's groups are collected.
abbrev pub diff_permits : System → Nacm → List CString → Oper → NodeInfo → Bool
diff_permits sys nacm groups oper n = permitted sys nacm oper groups n

-- A node reported is a denied one, and one counter has gone up; otherwise nothing has changed.
abbrev pub Reports : System → Nacm → CString → Forest → Nacm × Outcome → Type 0
Reports sys nacm user f (after, denied d) =
    (after ≡ record nacm { denied_data_writes = incr32 nacm.denied_data_writes })
    × (groups : List CString) × (collect_groups sys nacm user ≡ some groups)
    × DeniedAt (diff_permits sys nacm groups) none f d
Reports sys nacm user f (after, o) = after ≡ nacm

-- A diff node that ncac_check_diff reports is in the diff, asks for an access by its own or an
-- inherited operation and is refused it for the user's collected groups, and the counter of denied
-- data writes is the one thing that has changed. If none is reported, nothing has changed.
pub check_diff-Reports :
    (sys : System) (nacm : Nacm) (user : CString) (n : NodeInfo) (child next : Forest)
    → Reports sys nacm user (node n child next) (check_diff sys nacm user n child next)
unfolding check_diff
check_diff-Reports sys nacm user n child next = elim (Option-cases (collect_groups sys nacm user)) [
  | inl e ↦ rw (e, check_diff) refl
  | inr (groups, e) ↦ elim (Bool-cases (allowed_tree sys nacm n.schema user)) [
    | inl a ↦ rw (e, a, check_diff) refl
    | inr a ↦
        rw (e, a, check_diff)
          (by_outcome groups e
            (check_siblings (diff_permits sys nacm groups) none (node n child next) allowed) refl)
  ]
]
  where
    by_outcome :
        (groups : List CString)
        → collect_groups sys nacm user ≡ some groups
        → (o : Outcome)
        → check_siblings (diff_permits sys nacm groups) none (node n child next) allowed ≡ o
        → Reports sys nacm user (node n child next) (count_denied nacm o)
    by_outcome groups e allowed h = refl
    by_outcome groups e aborted h = refl
    by_outcome groups e (denied d) h = (
      refl,
      groups,
      e,
      reported (
          check_siblings_sound (diff_permits sys nacm groups) none (node n child next) allowed d h),
    )
      where
        reported : {P : Type 0} → (allowed ≡ denied d) ⊎ P → P
        reported (inl x) = cc
        reported (inr x) = x

-- ===== src/YangPush/Subscribed.antt =====
-- yang_push_sr_subscribe of src/yang_push.c subscribes once to each module of its filter, or to none;
-- np_ly_mod_has_data of src/common.c.
use netopeer.Common.{
  ◌≡◌, refl, ap, sym, subst, ◌∙◌, ℕ, ◌==◌, ◌&&◌, ◌||◌, not, Bool, true, false, List, [], ◌∷◌, ◌++◌,
  map, Option, none, some, arith, inl, inr, Bool-cases,
}
use netopeer.Sysrepo.{is_ok}
use netopeer.Subs.Subscribe.{Answers, subscribe_all}
use netopeer.Subs.Subscribed.{Complete, subscribe_all-Complete}
use netopeer.YangPush.Subscribe.{
  SchemaNode, Context, uninteresting, any_in_mask, each_root, np_ly_mod_has_data, contains,
  same_module, skipped, collect_mods, filter_collect_mods, subscribe_mods, yang_push_sr_subscribe,
}

-- Whether a node of the filter belongs to a module that can be subscribed to.
abbrev pub wanted : Context → Bool → List SchemaNode → ℕ → Bool
wanted c operational [] m = false
wanted c operational (n ∷ ns) m =
    (not (uninteresting operational n) && not (skipped c n.module_at) && m == n.module_at)
    || wanted c operational ns m

-- No module twice.
abbrev pub Once : List ℕ → Type 0
Once [] = Unit {0}
Once (m ∷ ms) = (contains m ms ≡ false) × Once ms

subscribe_mods-all :
    (c : Context) (answer : Answers) (ms ids : List ℕ)
    → subscribe_mods c answer ms ids ≡ subscribe_all answer (map c.name ms) ids
unfolding subscribe_mods subscribe_all
subscribe_mods-all c answer [] ids = refl
subscribe_mods-all c answer (m ∷ ms) ids = elim (Bool-cases (is_ok (answer (c.name m)).0)) [
  | inr e ↦ rw (subscribe_mods, subscribe_all, e)
  | inl e ↦
      rw (subscribe_mods, subscribe_all, e)
        (subscribe_mods-all c answer ms (ids ++ (answer (c.name m)).1 ∷ []))
]

-- Of a module with data only the first top-level tree is asked.
has_data_first :
    (operational : Bool) (r : List SchemaNode) (rs : List (List SchemaNode))
    → np_ly_mod_has_data operational (r ∷ rs) ≡ any_in_mask operational r
unfolding np_ly_mod_has_data
has_data_first operational r rs = elim (Bool-cases (any_in_mask operational r)) [
  | inl e ↦ rw (np_ly_mod_has_data, e)
  | inr e ↦ rw (np_ly_mod_has_data, e) (none_of r rs e)
]
  where
    none_of :
        (r : List SchemaNode) (rs : List (List SchemaNode))
        → any_in_mask operational r ≡ false
        → each_root operational r rs ≡ false
    none_of r [] e = refl
    none_of r (x ∷ rs) e = rw e (none_of r rs e)

contained_eq :
    (m k : ℕ) (ms : List ℕ) → contains k ms ≡ true → (contains m ms || m == k) ≡ contains m ms
contained_eq m k ms h = elim (Bool-cases (m == k)) [
  | inr e ↦ ground (arith, e)
  | inl e ↦
      let same : m ≡ k = ground (arith, e) in
      let g : contains m ms ≡ true = ap (λ t. contains t ms) same ∙ h in ground (arith, g)
]

-- ly_mod is a module in the set or one that is skipped.
abbrev Known : Context → Option ℕ → List ℕ → Type 0
Known c last mods = (k : ℕ) → same_module k last ≡ true → (skipped c k || contains k mods) ≡ true

redundant :
    (b w : Bool) (m k : ℕ) (ms : List ℕ)
    → (b || contains k ms) ≡ true
    → (contains m ms || w) ≡ (contains m ms || ((not b && m == k) || w))
redundant true w m k ms h = refl
redundant false w m k ms h = ground (arith, contained_eq m k ms h)

Known-new :
    (c : Context) (m : ℕ) (ms : List ℕ)
    → (skipped c m || contains m ms) ≡ true
    → Known c (some m) ms
Known-new c m ms h k e =
    let same : m ≡ k = ground (arith, e) in
    subst (λ x. (skipped c x || contains x ms) ≡ true) same h

abbrev pub Collects : Context → Bool → List SchemaNode → List ℕ → List ℕ → Type 0
Collects c operational ns mods result =
    Once result × ((m : ℕ) → contains m result ≡ (contains m mods || wanted c operational ns m))

module _ (add : ℕ → List ℕ → List ℕ)
    (adds : (m k : ℕ) (ms : List ℕ) → contains m (add k ms) ≡ (contains m ms || m == k))
    (once_kept : (k : ℕ) (ms : List ℕ) → Once ms → Once (add k ms)) where
  collect_mods-Collects :
      (c : Context) (operational : Bool) (ns : List SchemaNode) (last : Option ℕ) (mods : List ℕ)
      → Known c last mods
      → Once mods
      → Collects c operational ns mods (collect_mods add c operational ns last mods)
  collect_mods-Collects c operational [] last mods l o = (o, λ m. ground arith)
  collect_mods-Collects c operational (n ∷ ns) last mods l o =
      let at = n.module_at in
      elim (Bool-cases (uninteresting operational n)) [
        | inl e ↦ rw e (collect_mods-Collects c operational ns last mods l o)
        | inr e ↦ elim (Bool-cases (same_module at last)) [
          | inl s ↦
              let (once, all) = collect_mods-Collects c operational ns last mods l o in
              rw (e, s)
                (
                  once,
                  λ m.
                      all m
                      ∙ redundant (skipped c at) (wanted c operational ns m) m at mods (l at s),
                )
          | inr s ↦ elim (Bool-cases (skipped c at)) [
            | inl k ↦
                rw (e, s, k)
                  (collect_mods-Collects c operational ns (some at) mods
                    (Known-new c at mods (ground (arith, k))) o)
            | inr k ↦
                let new : contains at (add at mods) ≡ true = adds at at mods ∙ ground arith in
                let (once, all) =
                  collect_mods-Collects c operational ns (some at) (add at mods)
                    (Known-new c at (add at mods) (ground (arith, new))) (once_kept at mods o) in
                rw (e, s, k)
                  (
                    once,
                    λ m.
                        all m
                        ∙ ap (λ b. b || wanted c operational ns m) (adds m at mods)
                        ∙ ground arith,
                  )
          ]
        ]
      ]

  -- ly_set_add adds a module that is not there, and no module twice. The modules that a filter's nodes are collected into are those of a node that is in the mask and no RPC
  -- or notification, if implemented and not ietf-netconf, each once; and yang_push_sr_subscribe subscribes
  -- to each of them in this order, or, if sysrepo refuses one, drops all subscriptions made so far.
  pub sr_subscribe-Complete :
      (c : Context) (answer : Answers) (operational : Bool) (ns : List SchemaNode)
      → (mods : List ℕ) × Once mods
        × ((m : ℕ) → contains m mods ≡ wanted c operational ns m)
        × Complete answer
            (map c.name mods)
            []
            (yang_push_sr_subscribe add c answer operational (some ns))
  unfolding yang_push_sr_subscribe filter_collect_mods
  sr_subscribe-Complete c answer operational ns =
      let mods = filter_collect_mods add c operational ns in
      let (once, all) =
        collect_mods-Collects c operational ns none [] (λ k e. ground (arith, e)) tt in
      (
        mods,
        once,
        all,
        subst (Complete answer (map c.name mods) []) (sym (subscribe_mods-all c answer mods []))
            (subscribe_all-Complete answer (map c.name mods) []),
      )

-- ===== src/YangPush/Subscribe.antt =====
-- Sysrepo subscriptions of an on-change subscription: yang_push_sr_subscribe of src/yang_push.c with its
-- parts, and np_ly_mod_has_data of src/common.c.
use netopeer.Common.{
  ℕ, ◌==◌, ◌&&◌, ◌||◌, not, Bool, false, List, [], ◌∷◌, ◌++◌, Option, none, some, CString, lit,
  str_eq, if◌then◌else◌,
}
use netopeer.Sysrepo.{sr_ok, is_ok}
use netopeer.Subs.Subscribe.{Answers, Subscribed, subscribe_failed}

-- What is read of a schema node; `plain` is false for an RPC or a notification.
pub record SchemaNode : Type 0 where
  pub module_at : ℕ
  pub plain : Bool
  pub config_w : Bool
  pub config_r : Bool

-- The modules of the context, which are known by their addresses; `roots` has the nodes of each
-- top-level tree in document order.
pub record Context : Type 0 where
  pub modules : List ℕ
  pub implemented : ℕ → Bool
  pub name : ℕ → CString
  pub roots : ℕ → List (List SchemaNode)

-- flags & config_mask, which is LYS_CONFIG_MASK for the operational datastore and LYS_CONFIG_W for any other
abbrev pub in_mask : Bool → SchemaNode → Bool
in_mask operational n = n.config_w || (operational && n.config_r)

abbrev pub any_in_mask : Bool → List SchemaNode → Bool
any_in_mask operational [] = false
any_in_mask operational (n ∷ ns) = in_mask operational n || any_in_mask operational ns

-- The loop over the top-level nodes, each round of which visits the tree of the first.
abbrev pub each_root : Bool → List SchemaNode → List (List SchemaNode) → Bool
each_root operational first [] = false
each_root operational first (r ∷ rs) =
    any_in_mask operational first || each_root operational first rs

unfoldable pub np_ly_mod_has_data : Bool → List (List SchemaNode) → Bool
np_ly_mod_has_data operational [] = false
np_ly_mod_has_data operational (r ∷ rs) = each_root operational r (r ∷ rs)

-- Whether a module is in a set.
abbrev pub contains : ℕ → List ℕ → Bool
contains m [] = false
contains m (k ∷ ks) = m == k || contains m ks

abbrev pub same_module : ℕ → Option ℕ → Bool
same_module m none = false
same_module m (some k) = m == k

-- a node of an RPC or a notification, or one that is not in the mask
unfoldable pub uninteresting : Bool → SchemaNode → Bool
uninteresting operational n = not n.plain || not (in_mask operational n)

-- only imported, or ietf-netconf
unfoldable pub skipped : Context → ℕ → Bool
skipped c m = not (c.implemented m) || str_eq (c.name m) (lit "ietf-netconf")

abbrev pub with_data : Context → Bool → List ℕ → List ℕ
with_data c operational [] = []
with_data c operational (m ∷ ms) =
    if c.implemented m && np_ly_mod_has_data operational (c.roots m)
    then m ∷ with_data c operational ms
    else with_data c operational ms

-- The calls of yang_push_sr_subscribe_mod, with the IDs so far; memory is given.
unfoldable pub subscribe_mods : Context → Answers → List ℕ → List ℕ → Subscribed
subscribe_mods c answer [] ids = record { code = sr_ok; sub_ids = ids; dropped = [] }
subscribe_mods c answer (m ∷ ms) ids =
    if is_ok (answer (c.name m)).0
    then subscribe_mods c answer ms (ids ++ (answer (c.name m)).1 ∷ [])
    else subscribe_failed (answer (c.name m)).0 ids

module _ (ly_set_add : ℕ → List ℕ → List ℕ) where
  -- The loop over the nodes, with ly_mod and the set so far.
  abbrev pub collect_mods : Context → Bool → List SchemaNode → Option ℕ → List ℕ → List ℕ
  collect_mods c operational [] last mods = mods
  collect_mods c operational (n ∷ ns) last mods =
      if uninteresting operational n
      then collect_mods c operational ns last mods
      else (if same_module n.module_at last
          then collect_mods c operational ns last mods
          else (if skipped c n.module_at
              then collect_mods c operational ns (some n.module_at) mods
              else collect_mods c operational ns (some n.module_at) (ly_set_add n.module_at mods)))

  -- yang_push_sr_subscribe_filter_collect_mods, where lys_find_xpath_atoms gives the nodes
  unfoldable pub filter_collect_mods : Context → Bool → List SchemaNode → List ℕ
  filter_collect_mods c operational ns = collect_mods c operational ns none []

  -- The modules to subscribe to: those with data, or those that the filter's nodes belong to.
  abbrev pub modules_of : Context → Bool → Option (List SchemaNode) → List ℕ
  modules_of c operational none = with_data c operational c.modules
  modules_of c operational (some ns) = filter_collect_mods c operational ns

  -- Of the filter the nodes that lys_find_xpath_atoms gives; an error of it is SR_ERR_LY without more.
  unfoldable pub yang_push_sr_subscribe :
      Context → Answers → Bool → Option (List SchemaNode) → Subscribed
  yang_push_sr_subscribe c answer operational filter =
      subscribe_mods c answer (modules_of c operational filter) []

-- ===== src/Nacm/Path.antt =====
-- ncac_allowed_path of src/netconf_acm.c: the match of a node path and a rule target.
pub mod Matching
use netopeer.Common.{ℕ, ◌==◌, ◌&&◌, true, false, List, [], ◌∷◌, Option, none, some, CString}
use netopeer.Nacm.Types.{Match, no_match, full_match, partial_match}

-- Where the node pointer is: compared with the rule, or being moved over a predicate that the rule
-- does not have, outside and inside of quotes.
pub data Mode : Type 0 where
  comparing skipping quoted : Mode

-- Both pointers move along the node path. `none` is a read past the closing NUL of the node path,
-- by one of the two inner loops.
walk : Mode → CString → CString → Option Match
walk comparing [] ns = some full_match
walk comparing (r ∷ rs) [] = some partial_match
walk comparing (r ∷ rs) (n ∷ ns) = elim (r == n) [
  | true ↦ walk comparing rs ns
  | false ↦ elim (r == b'/' && n == b'[') [
    | true ↦ walk skipping (r ∷ rs) ns
    | false ↦ some no_match
  ]
]
walk skipping rs [] = none
walk skipping rs (n ∷ ns) = elim (n == b']') [
  | true ↦ walk comparing rs ns
  | false ↦ elim (n == b'\'') [ true ↦ walk quoted rs ns | false ↦ walk skipping rs ns ]
]
walk quoted rs [] = none
walk quoted rs (n ∷ ns) = elim (n == b'\'') [
  | true ↦ walk skipping rs ns
  | false ↦ walk quoted rs ns
]

unfoldable pub allowed_path : CString → CString → Option Match
unfolding walk
allowed_path rule_target node_path = walk comparing rule_target node_path

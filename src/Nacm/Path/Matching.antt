-- ===== src/Nacm/Path/Matching.antt =====
-- What ncac_allowed_path matches.
use netopeer.Common.{
  ◌==◌, ◌≡◌, refl, ◌≢◌, Bool, true, false, not, [], ◌∷◌, ◌++◌, none, some, CString, arith, ◌∙◌,
  if◌then◌else◌,
}
use netopeer.Nacm.Types.{full_match}
use netopeer.Nacm.Path.{Mode, comparing, skipping, quoted, walk, allowed_path}

-- Equal beginnings are walked over.
walk_common : (t a b : CString) → walk comparing (t ++ a) (t ++ b) ≡ walk comparing a b
unfolding walk
walk_common [] a b = refl
walk_common (c ∷ t) a b = ground (arith, walk_common t a b)

walk-prefix : (t s : CString) → walk comparing t (t ++ s) ≡ some full_match
unfolding walk
walk-prefix [] s = refl
walk-prefix (c ∷ t) s = ground (arith, walk-prefix t s)

-- A rule target matches each node path that begins with it: the target itself, its descendants and
-- its entries, and also any sibling whose name only begins with the target's last name.
pub allowed_path-prefix : (t s : CString) → allowed_path t (t ++ s) ≡ some full_match
unfolding allowed_path
allowed_path-prefix t s = walk-prefix t s

-- A predicate's text between the brackets: no bracket closes it outside of quotes, and the quotes
-- are closed.
abbrev pub is_balanced : Bool → CString → Bool
is_balanced in_quotes [] = not in_quotes
is_balanced true (c ∷ p) = if c == b'\'' then is_balanced false p else is_balanced true p
is_balanced false (c ∷ p) =
    if c == b']' then false else if c == b'\'' then is_balanced true p else is_balanced false p

abbrev inner : Bool → Mode
inner true = quoted
inner false = skipping

walk-balanced :
    (q : Bool) (rule p rest : CString)
    → is_balanced q p ≡ true
    → walk (inner q) rule (p ++ b']' ∷ rest) ≡ walk comparing rule rest
unfolding walk
walk-balanced true rule [] rest h = cc
walk-balanced false rule [] rest h = refl
walk-balanced true rule (c ∷ p) rest h =
    ground (arith, walk-balanced true rule p rest, walk-balanced false rule p rest)
walk-balanced false rule (c ∷ p) rest h =
    ground (arith, walk-balanced true rule p rest, walk-balanced false rule p rest)

walk_bracket : (r s : CString) → walk comparing (b'/' ∷ r) (b'[' ∷ s) ≡ walk skipping (b'/' ∷ r) s
unfolding walk
walk_bracket r s = refl

walk_slash : (r s : CString) → walk comparing (b'/' ∷ r) (b'/' ∷ s) ≡ walk comparing r s
unfolding walk
walk_slash r s = refl

-- A rule target with no predicate for a list matches whatever predicate stands there in the node
-- path: the comparison goes on behind it.
pub allowed_path_any_key :
    (t p r s : CString)
    → is_balanced false p ≡ true
    → allowed_path (t ++ b'/' ∷ r) (t ++ b'[' ∷ (p ++ b']' ∷ b'/' ∷ s)) ≡ allowed_path r s
unfolding allowed_path
allowed_path_any_key t p r s h =
    walk_common t (b'/' ∷ r) (b'[' ∷ (p ++ b']' ∷ b'/' ∷ s))
    ∙ walk_bracket r (p ++ b']' ∷ b'/' ∷ s)
    ∙ walk-balanced false (b'/' ∷ r) p (b'/' ∷ s) h
    ∙ walk_slash r s

-- Whether a bracket closes a predicate outside of single quotes.
abbrev pub closes : Bool → CString → Bool
closes in_quotes [] = false
closes true (c ∷ p) = if c == b'\'' then closes false p else closes true p
closes false (c ∷ p) =
    if c == b']' then true else if c == b'\'' then closes true p else closes false p

walk_open : (q : Bool) (rule p : CString) → closes q p ≡ false → walk (inner q) rule p ≡ none
unfolding walk
walk_open true rule [] h = refl
walk_open false rule [] h = refl
walk_open true rule (c ∷ p) h = ground (arith, walk_open true rule p, walk_open false rule p)
walk_open false rule (c ∷ p) h = ground (arith, walk_open true rule p, walk_open false rule p)

-- Where a predicate is skipped that no bracket closes outside of single quotes, the comparison
-- reads past the end of the node path.
pub allowed_path_overrun :
    (t r p : CString) → closes false p ≡ false → allowed_path (t ++ b'/' ∷ r) (t ++ b'[' ∷ p) ≡ none
unfolding allowed_path
allowed_path_overrun t r p h =
    walk_common t (b'/' ∷ r) (b'[' ∷ p) ∙ walk_bracket r p ∙ walk_open false (b'/' ∷ r) p h

-- Each predicate of a node path is closed, its values in single quotes.
abbrev pub is_closed : Mode → CString → Bool
is_closed comparing [] = true
is_closed skipping [] = false
is_closed quoted [] = false
is_closed comparing (c ∷ s) = if c == b'[' then is_closed skipping s else is_closed comparing s
is_closed skipping (c ∷ s) =
    if c == b']'
    then is_closed comparing s
    else if c == b'\''
    then is_closed quoted s
    else is_closed skipping s
is_closed quoted (c ∷ s) = if c == b'\'' then is_closed skipping s else is_closed quoted s

-- A rule target with no predicate.
abbrev pub is_plain : CString → Bool
is_plain [] = true
is_plain (c ∷ r) = if c == b'[' then false else is_plain r

walk_safe :
    (m : Mode) (r s : CString) → is_plain r ≡ true → is_closed m s ≡ true → walk m r s ≢ none
unfolding walk
walk_safe comparing [] s h k = λ e. cc
walk_safe comparing (r ∷ rs) [] h k = λ e. cc
walk_safe comparing (r ∷ rs) (n ∷ ns) h k =
    ground (arith, walk_safe comparing rs ns, walk_safe skipping (r ∷ rs) ns)
walk_safe skipping r [] h k = cc
walk_safe skipping r (n ∷ ns) h k =
    ground (arith, walk_safe comparing r ns, walk_safe quoted r ns, walk_safe skipping r ns)
walk_safe quoted r [] h k = cc
walk_safe quoted r (n ∷ ns) h k = ground (arith, walk_safe quoted r ns, walk_safe skipping r ns)

-- With no predicate in the rule target, and single quotes alone in the node path, the comparison
-- stays inside the node path.
pub allowed_path_safe :
    (r s : CString) → is_plain r ≡ true → is_closed comparing s ≡ true → allowed_path r s ≢ none
unfolding allowed_path
allowed_path_safe r s h k = walk_safe comparing r s h k

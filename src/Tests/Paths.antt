-- ===== src/Tests/Paths.antt =====
-- Node paths and rule targets.
use netopeer.Common.{◌≡◌, refl, [], ◌∷◌, none, some, CString, lit}
use netopeer.Nacm.Types.{full_match, partial_match}
use netopeer.Nacm.Path.{allowed_path}
use netopeer.Nacm.Path.Matching.{allowed_path_overrun}

descendant : allowed_path (lit "/i:p/q") (lit "/i:p/q[k='x']/s") ≡ some full_match
unfolding allowed_path lit
descendant = refl

any_key : allowed_path (lit "/i:q/s") (lit "/i:q[k='a]/b']/s") ≡ some full_match
unfolding allowed_path lit
any_key = refl

ancestor : allowed_path (lit "/i:p/q") (lit "/i:p") ≡ some partial_match
unfolding allowed_path lit
ancestor = refl

-- The node /i:p/quit is no descendant of /i:p/q.
sibling : allowed_path (lit "/i:p/q") (lit "/i:p/quit") ≡ some full_match
unfolding allowed_path lit
sibling = refl

-- lyd_path puts a value that has a single quote in double quotes.
double_quotes : allowed_path (lit "/i:q/s") (lit "/i:q[k=\"it's\"]/s") ≡ none
unfolding allowed_path lit
double_quotes = refl

abbrev q : CString
q = b'/' ∷ b'q' ∷ []

allowed_path_overrun_example :
    allowed_path (b'/' ∷ b'q' ∷ b'/' ∷ b's' ∷ []) (b'/' ∷ b'q' ∷ b'[' ∷ b'\'' ∷ b']' ∷ []) ≡ none
allowed_path_overrun_example = allowed_path_overrun q (b's' ∷ []) (b'\'' ∷ b']' ∷ []) refl

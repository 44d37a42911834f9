-- ===== src/Filter/Union.antt =====
-- op_filter_filter2xpath of src/common.c as a whole, alone and behind op_filter_subtree2xpath.
use netopeer.Common.{
  ◌≡◌, refl, sym, ap, ◌∙◌, ℕ, suc, Bool, true, false, not, ◌&&◌, ◌||◌, ltb, List, [], ◌∷◌, ◌++◌,
  Option, none, some, CString, length, arith, if◌then◌else◌,
}
use netopeer.Sysrepo.{sr_ok}
use netopeer.Filter.{
  Module, NodeInfo, node, no_nodes, sibling, has_text, Filter, join, op_filter_filter2xpath,
  sr_err_unsupported,
}
use netopeer.Filter.Subtree.{op_filter_subtree2xpath, only_content_match}
use netopeer.Filter.Parts.{queries, contents, top_queries, print_all}
use netopeer.Filter.Refined.{op_filter_subtree2xpath-Prints}
use mathlib.Core.List.{append_assoc, append-nil}

abbrev pub any_content : List Filter → Bool
any_content [] = false
any_content (f ∷ fs) = not f.selection || any_content fs

abbrev pub other_terms : List Filter → CString
other_terms [] = []
other_terms (f ∷ fs) = b' ' ∷ b'|' ∷ b' ' ∷ (f.str ++ other_terms fs)

-- (f1 | f2 | ...), and NULL for no filters
abbrev pub union_of : List Filter → Option CString
union_of [] = none
union_of (f ∷ fs) = some (b'(' ∷ (f.str ++ (other_terms fs ++ (b')' ∷ []))))

term_after :
    (x s t : CString) → x ++ b' ' ∷ b'|' ∷ b' ' ∷ [] ++ s ++ t ≡ x ++ b' ' ∷ b'|' ∷ b' ' ∷ (s ++ t)
term_after x s t =
    append_assoc (x ++ b' ' ∷ b'|' ∷ b' ' ∷ []) s t
    ∙ append_assoc x (b' ' ∷ b'|' ∷ b' ' ∷ []) (s ++ t)

join_more :
    (n : ℕ) (fs : List Filter) (x : CString)
    → join n fs (some x) ≡ (
        if any_content fs && ltb 1 n
        then (sr_err_unsupported, none)
        else (sr_ok, some (x ++ other_terms fs)))
unfolding join
join_more n [] x = ap (λ t. (sr_ok, some t)) (sym (append-nil x))
join_more n (f ∷ fs) x = ground (
  arith,
  join_more n fs (x ++ b' ' ∷ b'|' ∷ b' ' ∷ [] ++ f.str),
  term_after x f.str (other_terms fs),
)

-- The expression is the union of the filters in their order, in parentheses, and NULL for none. It is
-- refused exactly when there are several filters and one of them is a content match.
op_filter_filter2xpath-eq :
    (fs : List Filter)
    → op_filter_filter2xpath fs ≡ (
        if any_content fs && ltb 1 (length fs)
        then (sr_err_unsupported, none)
        else (sr_ok, union_of fs))
unfolding op_filter_filter2xpath join
op_filter_filter2xpath-eq [] = refl
op_filter_filter2xpath-eq (f ∷ fs) = ground (
  arith,
  join_more (suc (length fs)) fs (b'(' ∷ f.str),
  append_assoc f.str (other_terms fs) (b')' ∷ []),
)

-- A filter node n without a text has a child a without a text, in which k is the one content match,
-- and a childless second child c. Its subtree filter is refused, although no content match stands at
-- the top.
nested_content_refused :
    (get_module : CString → Option Module) (n a k c : NodeInfo)
    → has_text n.value ≡ false
    → has_text a.value ≡ false
    → has_text k.value ≡ true
    → (fs : List Filter) × (op_filter_subtree2xpath get_module
          (sibling
            (node n (
              sibling
                (node a (sibling (node k no_nodes) no_nodes))
                (sibling (node c no_nodes) no_nodes)))
            no_nodes)
          []
        ≡ some fs)
      × (op_filter_filter2xpath fs ≡ (sr_err_unsupported, none))
unfolding queries contents top_queries only_content_match op_filter_filter2xpath join
nested_content_refused get_module n a k c hn ha hk =
    let top =
      sibling
        (node n (
          sibling (node a (sibling (node k no_nodes) no_nodes))
            (sibling (node c no_nodes) no_nodes)))
        no_nodes in
    let fs = print_all (top_queries get_module top) in
    (fs, op_filter_subtree2xpath-Prints get_module top [], rw (top_queries, hn, ha, hk))

-- ===== src/Filter/Refined.antt =====
-- op_filter_subtree2xpath of src/common.c yields the filters that Filter/Parts describes.
use netopeer.Common.{
  ◌≡◌, refl, sym, ap, ◌∙◌, suc, ◌+◌, Bool, true, false, List, [], ◌∷◌, ◌++◌, Option, none, some,
  CString, lit, length, length-append, arith, inl, inr, Bool-cases, Option-cases,
}
use netopeer.Filter.{
  Module, NodeInfo, Node, Nodes, node, no_nodes, sibling, info, has_child, has_text, Filter,
}
use netopeer.Filter.Buffer.{Buf, append_node, value_of, prefix}
use netopeer.Filter.Subtree.{
  add_filter, add_top_content, only_content_match, append_contents, add_r, add_children,
  subtree_loop, op_filter_subtree2xpath,
}
use netopeer.Filter.Parts.{
  Part, step, text, print_attrs, print_part, print, attrs, node_parts, content_part, contents,
  Query, queries, child_queries, top_queries, print_all,
}
use netopeer.Filter.Printed.{
  chars, holds, exactly, Starts, c_str-holds, Starts-self, append_node-exactly,
  append_content-exactly, append_attrs-exactly, print-attrs, sprintf_new,
}
use mathlib.Core.List.{append_assoc, append-nil}

print-append : (ps qs : List Part) → print (ps ++ qs) ≡ print ps ++ print qs
print-append [] qs = refl
print-append (p ∷ ps) qs =
    rw (print-append ps qs) (sym (append_assoc (print_part p) (print ps) (print qs)))

print_all-append : (xs ys : List Query) → print_all (xs ++ ys) ≡ print_all xs ++ print_all ys
print_all-append [] ys = refl
print_all-append (x ∷ xs) ys = rw (print_all-append xs ys)

print_after :
    (fs : List Filter) (xs ys : List Query)
    → fs ++ print_all xs ++ print_all ys ≡ fs ++ print_all (xs ++ ys)
print_after fs xs ys =
    append_assoc fs (print_all xs) (print_all ys) ∙ ap (λ t. fs ++ t) (sym (print_all-append xs ys))

add_filter-eq :
    (p : CString) (s : Bool) (fs : List Filter)
    → add_filter (holds p) s fs ≡ some (fs ++ record { str = p; selection = s } ∷ [])
unfolding add_filter
add_filter-eq p s fs = rw (add_filter, c_str-holds p)

chars-append : (p s : CString) → chars (p ++ s) ≡ chars p ++ chars s
chars-append [] s = refl
chars-append (x ∷ p) s = rw (chars-append p s)

Starts-shorter : (ps qs : List Part) (b : Buf) → Starts (print (ps ++ qs)) b → Starts (print ps) b
Starts-shorter ps qs b (r, e) = (
  chars (print qs) ++ r,
  e
      ∙ ap (λ t. chars t ++ r) (print-append ps qs)
      ∙ ap (λ t. t ++ r) (chars-append (print ps) (print qs))
      ∙ append_assoc (chars (print ps)) (chars (print qs)) r,
)

abbrev top_step : Module → NodeInfo → CString
top_step m n = b'/' ∷ (prefix (some m) ++ n.name)

abbrev top_value : NodeInfo → CString
top_value n = lit "[text()='" ++ (value_of n ++ lit "']")

length-top_value : (n : NodeInfo) → length (top_value n) ≡ 9 + length (value_of n) + 2
unfolding lit
length-top_value n = omega (arith, length-append (value_of n) (b'\'' ∷ b']' ∷ []))

abbrev top_query : Module → NodeInfo → Query
top_query m n = record {
  parts = step (some m) n.name ∷ text (value_of n) ∷ attrs n.meta;
  selection = false;
}

add_top_content-eq :
    (m : Module) (n : NodeInfo) (fs : List Filter)
    → add_top_content m n fs ≡ some (fs ++ print_all (top_query m n ∷ []))
unfolding add_top_content lit
add_top_content-eq m n fs =
    let s = top_step m n ++ top_value n in
    let k : 1 + length m.name + 1 + length n.name + 9 + length (value_of n) + 3 ≡ suc (length s) =
      omega (
        arith,
        length-append (top_step m n) (top_value n),
        length-top_value n,
        length-append (prefix (some m)) n.name,
        length-append m.name (b':' ∷ []),
      ) in
    rw
      (
        add_top_content,
        k,
        sprintf_new s [],
        append_attrs-exactly n.meta s,
        add_filter-eq (s ++ print_attrs n.meta) false fs,
        print-attrs n.meta,
      )
      (ap (λ t. some (fs ++ record { str = t; selection = false } ∷ []))
        (append_assoc (top_step m n) (top_value n) (print_attrs n.meta)))

module _ (get_module : CString → Option Module) where
  at_node :
      (parent : Option NodeInfo) (n : NodeInfo) (ps : List Part) (b : Buf)
      → Starts (print ps) b
      → append_node get_module parent n b (suc (length (print ps)))
        ≡ exactly (print (ps ++ node_parts get_module parent n))
  at_node parent n ps b h =
      append_node-exactly get_module parent n (print ps) b h
      ∙ ap exactly (sym (print-append ps (node_parts get_module parent n)))

  at_contents :
      (n : NodeInfo) (cs : Nodes) (ps : List Part)
      → append_contents get_module n cs (holds (print ps)) (suc (length (print ps)))
        ≡ exactly (print (ps ++ contents get_module n cs))
  unfolding append_contents contents
  at_contents n no_nodes ps = rw (append-nil ps)
  at_contents n (sibling c cs) ps = elim (Bool-cases (has_text (info c).value)) [
    | inr e ↦ rw (append_contents, contents, e, at_contents n cs ps)
    | inl e ↦
        let p = content_part get_module n (info c) in
        let one : print (ps ++ p ∷ []) ≡ print ps ++ print_part p =
          print-append ps (p ∷ []) ∙ ap (λ t. print ps ++ t) (append-nil (print_part p)) in
        let a = append_content-exactly get_module n (info c) (print ps) ∙ ap exactly (sym one) in
        let l : ps ++ p ∷ [] ++ contents get_module n cs ≡ ps ++ p ∷ contents get_module n cs =
          append_assoc ps (p ∷ []) (contents get_module n cs) in
        rw (append_contents, contents, e, a, at_contents n cs (ps ++ p ∷ []))
          (ap (λ t. exactly (print t)) l)
  ]

  -- The buffer still begins with the path, and the filters are behind those that were there.
  abbrev Adds : List Part → Option (Buf × List Filter) → List Filter → List Query → Type 0
  Adds ps r fs qs = (b : Buf) × Starts (print ps) b × (r ≡ some (b, fs ++ print_all qs))

  mutual
    unfolding add_r queries child_queries

    add_r-Adds :
        (parent : Option NodeInfo) (x : Node) (ps : List Part) (b : Buf) (fs : List Filter)
        → Starts (print ps) b
        → Adds ps
            (add_r get_module parent x b (suc (length (print ps))) fs)
            fs
            (queries get_module parent x ps)
    add_r-Adds parent (node n no_nodes) ps b fs h =
        let ns = node_parts get_module parent n in
        (
          holds (print (ps ++ ns)),
          Starts-shorter ps ns _ (Starts-self (print (ps ++ ns))),
          rw (add_r, queries, at_node parent n ps b h, add_filter-eq (print (ps ++ ns)) true fs),
        )
    add_r-Adds parent (node n (sibling c cs)) ps b fs h =
        let ns = node_parts get_module parent n in
        let ks = contents get_module n (sibling c cs) in
        let short = λ (d : Buf) (s : Starts (print (ps ++ ns ++ ks)) d).
          Starts-shorter ps ns d (Starts-shorter (ps ++ ns) ks d s) in
        let full = holds (print (ps ++ ns ++ ks)) in
        let self = Starts-self (print (ps ++ ns ++ ks)) in
        elim (Bool-cases (only_content_match (sibling c cs))) [
          | inl e ↦ (
            full,
            short full self,
            rw (
              add_r,
              queries,
              at_node parent n ps b h,
              at_contents n (sibling c cs) (ps ++ ns),
              e,
              add_filter-eq (print (ps ++ ns ++ ks)) false fs,
            ),
          )
          | inr e ↦
              let (d, s, a) = add_children-Adds n (sibling c cs) (ps ++ ns ++ ks) full fs self in
              (
                d,
                short d s,
                rw (
                  add_r,
                  queries,
                  at_node parent n ps b h,
                  at_contents n (sibling c cs) (ps ++ ns),
                  e,
                  a,
                ),
              )
        ]

    add_children-Adds :
        (n : NodeInfo) (cs : Nodes) (ps : List Part) (b : Buf) (fs : List Filter)
        → Starts (print ps) b
        → Adds ps
            (add_children get_module n cs b (suc (length (print ps))) fs)
            fs
            (child_queries get_module n cs ps)
    add_children-Adds n no_nodes ps b fs h = (b, h, rw (append-nil fs))
    add_children-Adds n (sibling c cs) ps b fs h = elim (Bool-cases (has_child c)) [
      | inl e ↦
          let qs = queries get_module (some n) c ps in
          let (d, s, a) = add_r-Adds (some n) c ps b fs h in
          let (d2, s2, a2) = add_children-Adds n cs ps d (fs ++ print_all qs) s in
          (
            d2,
            s2,
            rw (add_children, child_queries, e, a, a2)
                (ap (λ t. some (d2, t)) (print_after fs qs (child_queries get_module n cs ps))),
          )
      | inr e ↦
          let ns = node_parts get_module (some n) (info c) in
          let p = print (ps ++ ns) in
          let (d2, s2, a2) =
            add_children-Adds n cs ps (holds p) (fs ++ record { str = p; selection = true } ∷ [])
              (Starts-shorter ps ns (holds p) (Starts-self p)) in
          (
            d2,
            s2,
            rw
                (
                  add_children,
                  child_queries,
                  e,
                  at_node (some n) (info c) ps b h,
                  add_filter-eq p true fs,
                  a2,
                )
                (ap (λ t. some (d2, t))
                  (append_assoc fs (record { str = p; selection = true } ∷ [])
                    (print_all (child_queries get_module n cs ps)))),
          )
    ]

  subtree_loop-eq :
      (cs : Nodes) (b : Buf) (fs : List Filter)
      → subtree_loop get_module cs b fs ≡ some (fs ++ print_all (top_queries get_module cs))
  unfolding subtree_loop top_queries
  subtree_loop-eq no_nodes b fs = ap some (sym (append-nil fs))
  subtree_loop-eq (sibling c cs) b fs = elim (Bool-cases (has_text (info c).value)) [
    | inr e ↦
        let (d, s, a) = add_r-Adds none c [] b fs (b, refl) in
        let qs = queries get_module none c [] in
        rw (subtree_loop, top_queries, e, a, subtree_loop-eq cs d (fs ++ print_all qs))
          (ap some (print_after fs qs (top_queries get_module cs)))
    | inl e ↦ elim (Option-cases (info c).schema) [
      | inl f ↦ rw (subtree_loop, top_queries, e, f) (subtree_loop-eq cs b fs)
      | inr (m, f) ↦
          let q = top_query m (info c) in
          rw
            (
              subtree_loop,
              top_queries,
              e,
              f,
              add_top_content-eq m (info c) fs,
              subtree_loop-eq cs b (fs ++ print_all (q ∷ [])),
            )
            (ap some (print_after fs (q ∷ []) (top_queries get_module cs)))
    ]
  ]

-- The filters of a subtree filter are those of Filter/Parts, and no access to a buffer is out of
-- bounds: they are printed, behind the filters that were there, of each top-level node in its order.
pub op_filter_subtree2xpath-Prints :
    (get_module : CString → Option Module) (top : Nodes) (fs : List Filter)
    → op_filter_subtree2xpath get_module top fs
      ≡ some (fs ++ print_all (top_queries get_module top))
unfolding op_filter_subtree2xpath
op_filter_subtree2xpath-Prints get_module top fs = subtree_loop-eq get_module top [] fs

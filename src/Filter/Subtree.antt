-- ===== src/Filter/Subtree.antt =====
-- op_filter_subtree2xpath and filter_xpath_buf_add_r of src/common.c: the XPath filters of a subtree
-- filter. A recursive call gets the buffer and the size behind the parent's text, and the loop goes
-- on with its own size.
use netopeer.Common.{
  ◌>>=◌, ℕ, ◌+◌, ◌&&◌, Bool, true, false, List, [], ◌∷◌, ◌++◌, Option, none, some, CString, lit,
  length, if◌then◌else◌,
}
use netopeer.Filter.{
  Module, NodeInfo, Node, Nodes, node, no_nodes, sibling, info, is_any, has_child, has_text, Filter,
}
use netopeer.Filter.Buffer.{
  Buf, c_str, realloc, sprintf, append_attrs, append_content, append_node, value_of, prefix,
}

-- strdup(new_filter) is behind the others; `none` is a read out of bounds.
unfoldable pub add_filter : Buf → Bool → List Filter → Option (List Filter)
add_filter buf selection fs = do
  s ← c_str buf
  some (fs ++ record { str = s; selection = selection } ∷ [])

-- filter_xpath_buf_add_top_content, of a node whose schema has module m
unfoldable pub add_top_content : Module → NodeInfo → List Filter → Option (List Filter)
add_top_content m n fs = do
  let size = 1 + length m.name + 1 + length n.name + 9 + length (value_of n) + 3
  b ←
      sprintf 0
        ((b'/' ∷ (prefix (some m) ++ n.name)) ++ (lit "[text()='" ++ (value_of n ++ lit "']")))
        (realloc size [])
  (c, s) ← append_attrs n.meta b size
  add_filter c false fs

-- only_content_match, after the loop over the children
unfoldable pub only_content_match : Nodes → Bool
only_content_match no_nodes = true
only_content_match (sibling c cs) = has_text (info c).value && only_content_match cs

module _ (get_module : CString → Option Module) where
  -- the first loop of filter_xpath_buf_add_r
  unfoldable pub append_contents : NodeInfo → Nodes → Buf → ℕ → Option (Buf × ℕ)
  append_contents n no_nodes buf size = some (buf, size)
  append_contents n (sibling c cs) buf size = elim (has_text (info c).value) [
    | true ↦ do
      (b, s) ← append_content get_module (some n) (info c) buf size
      append_contents n cs b s
    | false ↦ append_contents n cs buf size
  ]

  unfoldable mutual
    pub add_r : Option NodeInfo → Node → Buf → ℕ → List Filter → Option (Buf × List Filter)
    add_r parent (node n cs) buf size fs = do
      (b, s) ← append_node get_module parent n buf size
      elim (is_any cs) [
        | false ↦ do gs ← add_filter b true fs; some (b, gs)
        | true ↦ do
          (c, t) ← append_contents n cs b s
          elim (only_content_match cs) [
            | true ↦ do gs ← add_filter c false fs; some (c, gs)
            | false ↦ add_children n cs c t fs
          ]
      ]

    -- the second loop
    pub add_children : NodeInfo → Nodes → Buf → ℕ → List Filter → Option (Buf × List Filter)
    add_children n no_nodes buf size fs = some (buf, fs)
    add_children n (sibling c cs) buf size fs = do
      (b, gs) ← if has_child c then add_r (some n) c buf size fs else (do
        (b, s) ← append_node get_module (some n) (info c) buf size
        gs ← add_filter b true fs
        some (b, gs))
      add_children n cs b size gs

  -- An opaque node with a value is skipped; a data node with one is a content match at the top.
  unfoldable pub subtree_loop : Nodes → Buf → List Filter → Option (List Filter)
  subtree_loop no_nodes buf fs = some fs
  subtree_loop (sibling c cs) buf fs = elim (has_text (info c).value) [
    | true ↦ elim (info c).schema [
      | some m ↦ do gs ← add_top_content m (info c) fs; subtree_loop cs buf gs
      | none ↦ subtree_loop cs buf fs
    ]
    | false ↦ do (b, gs) ← add_r none c buf 1 fs; subtree_loop cs b gs
  ]

  unfoldable pub op_filter_subtree2xpath : Nodes → List Filter → Option (List Filter)
  op_filter_subtree2xpath top fs = subtree_loop top [] fs

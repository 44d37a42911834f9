-- ===== src/Tests/Filters.antt =====
-- Subtree filters.
use netopeer.Common.{
  ◌≡◌, refl, ℕ, str_eq, true, List, [], ◌∷◌, ◌++◌, Option, none, some, CString, lit,
}
use netopeer.Filter.{Module, Meta, NodeInfo, Nodes, node, no_nodes, sibling, Filter}
use netopeer.Filter.Buffer.{
  realloc, sprintf, c_str, print_at_end, append_attrs, inherits, print_node_module, append_content,
  append_node, prefix,
}
use netopeer.Filter.Subtree.{
  add_filter, only_content_match, append_contents, add_r, subtree_loop, op_filter_subtree2xpath,
}
use netopeer.Filter.Parts.{print_all, top_queries, print_attrs}
use netopeer.Filter.Printed.{holds, exactly}
use netopeer.Filter.Refined.{op_filter_subtree2xpath-Prints}
use netopeer.Filter.Quoted.{read_literal, append_content_reads, append_attrs_cut}

abbrev i_module : Module
i_module = record { name = b'i' ∷ []; ns = b'n' ∷ [] }

abbrev leaf : ℕ → Option CString → List Meta → NodeInfo
leaf c v ms = record {
  schema = some i_module;
  module_ns = none;
  name = c ∷ [];
  value = v;
  meta = ms;
}

abbrev no_module : CString → Option Module
no_module ns = none

abbrev plain : ℕ → NodeInfo
plain c = leaf c none []

-- <q><k>it's</k><s/></q>, the module of q being i
abbrev keyed : Nodes
keyed =
    sibling
      (node (plain b'q') (
        sibling (node (leaf b'k' (some (b'\'' ∷ [])) []) no_nodes)
          (sibling (node (plain b's') no_nodes) no_nodes)))
      no_nodes

keyed_filters :
    op_filter_subtree2xpath no_module keyed []
    ≡ some (
        record { str = lit "/i:q[k=\"'\"]/k"; selection = true }
        ∷ record { str = lit "/i:q[k=\"'\"]/s"; selection = true }
        ∷ [])
unfolding op_filter_subtree2xpath subtree_loop add_r append_node append_contents append_content
    append_attrs print_at_end sprintf realloc add_filter c_str only_content_match print_node_module
    inherits lit str_eq
keyed_filters = refl

op_filter_subtree2xpath-Prints_example :
    op_filter_subtree2xpath no_module keyed []
    ≡ some ([] ++ print_all (top_queries no_module keyed))
op_filter_subtree2xpath-Prints_example = op_filter_subtree2xpath-Prints no_module keyed []

abbrev two : List Filter
two =
    record { str = b'a' ∷ []; selection = true } ∷ record { str = b'b' ∷ []; selection = true } ∷ []

abbrev nested : Nodes
nested =
    sibling
      (node (plain b'n') (
        sibling
          (node (plain b'a') (sibling (node (leaf b'k' (some (b'1' ∷ [])) []) no_nodes) no_nodes))
          (sibling (node (plain b'c') no_nodes) no_nodes)))
      no_nodes

append_content_reads_example :
    (t : CString) × (append_content no_module
        (some (plain b'q'))
        (leaf b'k' (some (b'\'' ∷ [])) [])
        (holds (b'/' ∷ []))
        2
      ≡ exactly (
          b'/' ∷ []
          ++ (b'['
                ∷ (prefix (
                      print_node_module no_module
                        (some (plain b'q'))
                        (leaf b'k' (some (b'\'' ∷ [])) []))
                    ++ (b'k' ∷ []))
              ++ (print_attrs [] ++ b'=' ∷ t))))
    × (read_literal t ≡ some (b'\'' ∷ [], b']' ∷ []))
append_content_reads_example =
    append_content_reads no_module (plain b'q') (leaf b'k' (some (b'\'' ∷ [])) []) (b'/' ∷ []) refl

abbrev quoted : Meta
quoted = record { module_name = b'm' ∷ []; name = b'a' ∷ []; value = b'x' ∷ b'\'' ∷ b'y' ∷ [] }

append_attrs_cut_example :
    (t : CString) × (append_attrs (quoted ∷ []) (holds (b'/' ∷ [])) 2
      ≡ exactly (b'/' ∷ [] ++ (b'[' ∷ b'@' ∷ b'm' ∷ b':' ∷ b'a' ∷ b'=' ∷ t)))
    × (read_literal t ≡ some (b'x' ∷ [], b'y' ∷ b'\'' ∷ b']' ∷ []))
append_attrs_cut_example = append_attrs_cut quoted (b'x' ∷ []) (b'y' ∷ []) (b'/' ∷ []) refl refl

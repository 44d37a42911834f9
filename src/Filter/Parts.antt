-- ===== src/Filter/Parts.antt =====
-- The filters that src/common.c makes of a subtree filter, with no buffer: XPath expressions as lists
-- of parts, and how a part is written.
use netopeer.Common.{
  Bool, true, false, List, [], ◌∷◌, ◌++◌, Option, none, some, CString, lit, if◌then◌else◌,
}
use netopeer.Filter.{
  Module, Meta, NodeInfo, Node, Nodes, node, no_nodes, sibling, info, is_any, has_child, has_text,
  Filter,
}
use netopeer.Filter.Buffer.{attr_text, quot, prefix, print_node_module, value_of}
use netopeer.Filter.Subtree.{only_content_match}

-- A step to a child, an annotation's value, a child's value, and the value of the node itself.
pub data Part : Type 0 where
  step : Option Module → CString → Part
  attr : Meta → Part
  content : Option Module → CString → List Meta → CString → Part
  text : CString → Part

abbrev pub print_attrs : List Meta → CString
print_attrs [] = []
print_attrs (m ∷ ms) = attr_text m ++ print_attrs ms

abbrev pub print_value : CString → CString
print_value v = b'=' ∷ quot v ∷ (v ++ (quot v ∷ b']' ∷ []))

abbrev pub print_part : Part → CString
print_part (step m name) = b'/' ∷ (prefix m ++ name)
print_part (attr m) = attr_text m
print_part (content m name ms v) = (b'[' ∷ (prefix m ++ name)) ++ (print_attrs ms ++ print_value v)
print_part (text v) = lit "[text()='" ++ (v ++ lit "']")

abbrev pub print : List Part → CString
print [] = []
print (p ∷ ps) = print_part p ++ print ps

-- An expression, and whether it selects or restricts.
pub record Query : Type 0 where
  pub parts : List Part
  pub selection : Bool

abbrev pub print_all : List Query → List Filter
print_all [] = []
print_all (q ∷ qs) = record { str = print q.parts; selection = q.selection } ∷ print_all qs

abbrev pub attrs : List Meta → List Part
attrs [] = []
attrs (m ∷ ms) = attr m ∷ attrs ms

-- The attributes of an opaque node are not printed.
abbrev pub schema_parts : Option Module → List Meta → List Part
schema_parts none ms = []
schema_parts (some m) ms = attrs ms

module _ (get_module : CString → Option Module) where
  abbrev pub node_parts : Option NodeInfo → NodeInfo → List Part
  node_parts parent n =
      step (print_node_module get_module parent n) n.name ∷ schema_parts n.schema n.meta

  abbrev pub content_part : NodeInfo → NodeInfo → Part
  content_part n c = content (print_node_module get_module (some n) c) c.name c.meta (value_of c)

  -- Each child with a value restricts its parent.
  unfoldable pub contents : NodeInfo → Nodes → List Part
  contents n no_nodes = []
  contents n (sibling c cs) = elim (has_text (info c).value) [
    | true ↦ content_part n (info c) ∷ contents n cs
    | false ↦ contents n cs
  ]

  -- A node without children is selected. One with content matches only is retrieved as a subtree;
  -- otherwise each child, the content matches too, is a filter below it.
  unfoldable mutual
    pub queries : Option NodeInfo → Node → List Part → List Query
    queries parent (node n cs) path =
        let here = path ++ node_parts parent n in
        let whole = here ++ contents n cs in
        if is_any cs
        then (if only_content_match cs
            then record { parts = whole; selection = false } ∷ []
            else child_queries n cs whole)
        else record { parts = here; selection = true } ∷ []

    pub child_queries : NodeInfo → Nodes → List Part → List Query
    child_queries n no_nodes path = []
    child_queries n (sibling c cs) path =
        let first =
          if has_child c
          then queries (some n) c path
          else record { parts = path ++ node_parts (some n) (info c); selection = true } ∷ [] in
        first ++ child_queries n cs path

  unfoldable pub top_queries : Nodes → List Query
  top_queries no_nodes = []
  top_queries (sibling c cs) = elim (has_text (info c).value) [
    | true ↦ elim (info c).schema [
      | some m ↦
          record {
            parts = step (some m) (info c).name ∷ text (value_of (info c)) ∷ attrs (info c).meta;
            selection = false;
          }
          ∷ top_queries cs
      | none ↦ top_queries cs
    ]
    | false ↦ queries none c [] ++ top_queries cs
  ]

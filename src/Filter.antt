-- ===== src/Filter.antt =====
-- The filters of src/common.c: what op_filter_subtree2xpath reads of libyang's nodes, struct
-- np2_filter of src/common.h, and the union that op_filter_filter2xpath makes of the filters.
pub mod Buffer
pub mod Subtree
pub mod Parts
pub mod Printed
pub mod Refined
pub mod Union
pub mod Quoted
use netopeer.Common.{
  ℕ, suc, Bool, true, false, List, [], ◌∷◌, ◌++◌, ◌||◌, ◌&&◌, ltb, ◌==◌, Option, none, some,
  CString, lit, length, not,
}
use netopeer.Sysrepo.{Code, sr_ok, sr_err_other}

-- A module of the libyang context: its name and namespace.
pub record Module : Type 0 where
  pub name : CString
  pub ns : CString

-- struct lyd_meta
pub record Meta : Type 0 where
  pub module_name : CString
  pub name : CString
  pub value : CString

-- What the code reads of a struct lyd_node besides its children: the module of the schema, which an
-- opaque node does not have, name.module_ns of an opaque node, LYD_NAME, lyd_get_value and meta.
pub record NodeInfo : Type 0 where
  pub schema : Option Module
  pub module_ns : Option CString
  pub name : CString
  pub value : Option CString
  pub meta : List Meta

-- A node with its children, and a list of siblings.
mutual
  pub data Node : Type 0 where
    node : NodeInfo → Nodes → Node

  pub data Nodes : Type 0 where
    no_nodes : Nodes
    sibling : Node → Nodes → Nodes

abbrev pub info : Node → NodeInfo
info (node i cs) = i

-- lyd_child(node) != NULL
abbrev pub is_any : Nodes → Bool
is_any no_nodes = false
is_any (sibling c cs) = true

abbrev pub has_child : Node → Bool
has_child (node i cs) = is_any cs

-- isspace in the C locale
abbrev pub isspace : ℕ → Bool
isspace c = c == 32 || ltb 8 c && ltb c 14

abbrev pub strws : CString → Bool
strws [] = true
strws (c ∷ s) = isspace c && strws s

-- A value that is there and not white space.
abbrev pub has_text : Option CString → Bool
has_text none = false
has_text (some v) = not (strws v)

-- One item of the array of struct np2_filter; the array is a list.
pub record Filter : Type 0 where
  pub str : CString
  pub selection : Bool

-- np_append_str
abbrev pub append_str : CString → Option CString → CString
append_str s none = s
append_str s (some t) = t ++ s

abbrev pub sr_err_unsupported : Code
sr_err_unsupported = sr_err_other 8

-- The loop of op_filter_filter2xpath; `count` is the length of the whole array.
join : ℕ → List Filter → Option CString → Code × Option CString
join count [] xpath = (sr_ok, xpath)
join count (f ∷ fs) xpath = elim (not f.selection && ltb 1 count) [
  | true ↦ (sr_err_unsupported, none)
  | false ↦ elim xpath [
    | none ↦ join count fs (some (append_str f.str (some (append_str (b'(' ∷ []) none))))
    | some x ↦
        join count fs
          (some (append_str f.str (some (append_str (b' ' ∷ b'|' ∷ b' ' ∷ []) (some x)))))
  ]
]

abbrev pub close_parens : Option CString → Option CString
close_parens none = none
close_parens (some x) = some (append_str (b')' ∷ []) (some x))

abbrev pub finish : Code × Option CString → Code × Option CString
finish (sr_ok, xpath) = (sr_ok, close_parens xpath)
finish (code, xpath) = (code, xpath)

unfoldable pub op_filter_filter2xpath : List Filter → Code × Option CString
unfolding join
op_filter_filter2xpath fs = finish (join (length fs) fs none)

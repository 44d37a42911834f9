-- ===== src/Filter/Buffer.antt =====
-- The growing buffer of src/common.c as allocated bytes, and what its functions print there:
-- filter_xpath_buf_append_attrs, _append_content, _append_node and filter_xpath_print_node_module.
-- Allocations succeed, and sizes stay below 2^31.
use netopeer.Common.{
  ◌>>=◌, ℕ, zero, suc, ◌+◌, ◌-◌, ◌==◌, ◌||◌, Bool, true, false, List, [], ◌∷◌, ◌++◌, Option, none,
  some, CString, str_eq, length, if◌then◌else◌,
}
use netopeer.Filter.{Module, Meta, NodeInfo}

-- One allocated byte: a character other than NUL, a NUL, or not written yet.
pub data Cell : Type 0 where
  char : ℕ → Cell
  nul : Cell
  unset : Cell

abbrev pub Buf : Type 0
Buf = List Cell

-- realloc(buf, n): the bytes are kept up to n, and what is new is not set. NULL is `[]`.
unfoldable pub realloc : ℕ → Buf → Buf
realloc zero b = []
realloc (suc n) [] = unset ∷ realloc n []
realloc (suc n) (c ∷ b) = c ∷ realloc n b

abbrev pub put_after : Cell → Option Buf → Option Buf
put_after c none = none
put_after c (some b) = some (c ∷ b)

-- sprintf(buf + offset, ...), where the text that is printed is s. `none` is a write past the end.
unfoldable pub sprintf : ℕ → CString → Buf → Option Buf
sprintf offset s [] = none
sprintf zero [] (c ∷ b) = some (nul ∷ b)
sprintf zero (x ∷ s) (c ∷ b) = put_after (char x) (sprintf zero s b)
sprintf (suc n) s (c ∷ b) = put_after c (sprintf n s b)

-- The string at buf; `none` is a read of a byte that is not set, or past the end.
unfoldable pub c_str : Buf → Option CString
c_str [] = none
c_str (char x ∷ b) = elim (c_str b) [ none ↦ none | some s ↦ some (x ∷ s) ]
c_str (nul ∷ b) = some []
c_str (unset ∷ b) = none

-- A buffer with its size; `none` is an access out of bounds.
abbrev pub Sized : Type 0
Sized = Option (Buf × ℕ)

-- realloc(*buf, new_size); sprintf(*buf + (size - 1), ...); size = new_size
unfoldable pub print_at_end : ℕ → ℕ → CString → Buf → Sized
print_at_end size new_size text buf = do
  b ← sprintf (size - 1) text (realloc new_size buf)
  some (b, new_size)

abbrev pub attr_text : Meta → CString
attr_text m =
    b'['
    ∷ b'@'
    ∷ (m.module_name ++ (b':' ∷ (m.name ++ (b'=' ∷ b'\'' ∷ (m.value ++ (b'\'' ∷ b']' ∷ []))))))

abbrev pub attr_size : Meta → ℕ → ℕ
attr_size m size = size + 2 + length m.module_name + 1 + length m.name + 2 + length m.value + 2

unfoldable pub append_attrs : List Meta → Buf → ℕ → Sized
append_attrs [] buf size = some (buf, size)
append_attrs (m ∷ ms) buf size = do
  (b, s) ← print_at_end size (attr_size m size) (attr_text m) buf
  append_attrs ms b s

-- mod->ns == opaq->name.module_ns, for pointers of the dictionary
abbrev pub same_ns : Option CString → Option CString → Bool
same_ns none none = true
same_ns (some a) (some b) = str_eq a b
same_ns _ _ = false

-- filter_xpath_print_node_module's first part: the module of a node is that of its parent. Modules
-- of data nodes are implemented, so one module has one name.
unfoldable pub inherits : Option NodeInfo → NodeInfo → Bool
inherits none n = false
inherits (some p) n = elim n.schema [
  | some m ↦ elim p.schema [
    | some k ↦ str_eq m.name k.name
    | none ↦ same_ns (some m.ns) p.module_ns
  ]
  | none ↦ elim p.schema [
    | some k ↦ same_ns (some k.ns) n.module_ns
    | none ↦ same_ns n.module_ns p.module_ns
  ]
]

-- `has_char c s` is strchr(s, c) != NULL
abbrev pub has_char : ℕ → CString → Bool
has_char c [] = false
has_char c (x ∷ s) = x == c || has_char c s

abbrev pub quot : CString → ℕ
quot v = if has_char b'\'' v then b'"' else b'\''

-- (mod ? mod->name : ""), (mod ? ":" : "")
abbrev pub prefix : Option Module → CString
prefix none = []
prefix (some m) = m.name ++ (b':' ∷ [])

abbrev pub prefix_len : Option Module → ℕ
prefix_len none = 0
prefix_len (some m) = length m.name + 1

-- lyd_get_value, of a node that has a value
abbrev pub value_of : NodeInfo → CString
value_of n = elim n.value [ none ↦ [] | some v ↦ v ]

-- ly_ctx_get_module_implemented_ns of the context
module _ (get_module : CString → Option Module) where
  unfoldable pub print_node_module : Option NodeInfo → NodeInfo → Option Module
  print_node_module parent n = elim (inherits parent n) [
    | true ↦ none
    | false ↦ elim n.schema [
      | some m ↦ some m
      | none ↦ elim n.module_ns [ none ↦ none | some ns ↦ get_module ns ]
    ]
  ]

  unfoldable pub append_content : Option NodeInfo → NodeInfo → Buf → ℕ → Sized
  append_content parent n buf size = do
    let mod_of = print_node_module parent n
    (b, s) ←
        print_at_end size (size + 1 + prefix_len mod_of + length n.name)
          (b'[' ∷ (prefix mod_of ++ n.name)) buf
    (c, t) ← append_attrs n.meta b s
    print_at_end t (t + 2 + length (value_of n) + 2)
        (b'=' ∷ quot (value_of n) ∷ (value_of n ++ (quot (value_of n) ∷ b']' ∷ []))) c

  unfoldable pub append_node : Option NodeInfo → NodeInfo → Buf → ℕ → Sized
  append_node parent n buf size = do
    let mod_of = print_node_module parent n
    (b, s) ←
        print_at_end size (size + 1 + prefix_len mod_of + length n.name)
          (b'/' ∷ (prefix mod_of ++ n.name)) buf
    elim n.schema [ none ↦ some (b, s) | some m ↦ append_attrs n.meta b s ]

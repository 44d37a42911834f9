-- ===== src/Filter/Quoted.antt =====
-- The values that src/common.c writes into XPath expressions, as an XPath parser reads them back.
use netopeer.Common.{
  ◌≡◌, refl, ap, ◌∙◌, ℕ, suc, ◌==◌, ==_iff, false, ◌&&◌, ◌||◌, [], ◌∷◌, ◌++◌, Option, none, some,
  CString, length, arith, inl, inr, Bool-cases, if◌then◌else◌,
}
use netopeer.Filter.{Module, Meta, NodeInfo}
use netopeer.Filter.Buffer.{
  has_char, quot, attr_text, prefix, value_of, print_node_module, append_attrs, append_content,
}
use netopeer.Filter.Parts.{print_attrs}
use netopeer.Filter.Printed.{holds, exactly, append_attrs-exactly, append_content-exactly}
use mathlib.Core.List.{append_assoc, append-nil}

-- Literal of XPath 1.0: the text up to the quote that comes first, and what is behind.
abbrev pub until : ℕ → CString → Option (CString × CString)
until q [] = none
until q (c ∷ s) =
    if c == q
    then some ([], s)
    else elim (until q s) [ none ↦ none | some (a, b) ↦ some (c ∷ a, b) ]

abbrev pub read_literal : CString → Option (CString × CString)
read_literal [] = none
read_literal (c ∷ s) = if c == b'\'' || c == b'"' then until c s else none

pub until_quote :
    (q : ℕ) (v rest : CString) → has_char q v ≡ false → until q (v ++ q ∷ rest) ≡ some (v, rest)
until_quote q [] rest h = rw ((==_iff q q).1 refl)
until_quote q (c ∷ v) rest h = ground (arith, until_quote q v rest)

-- The value of a content match that has not quotes of both kinds is read back from what is written
-- for it behind the name and the attributes.
pub append_content_reads :
    (get_module : CString → Option Module) (n c : NodeInfo) (p : CString)
    → has_char b'\'' (value_of c) && has_char b'"' (value_of c) ≡ false
    → (t : CString) × (append_content get_module (some n) c (holds p) (suc (length p))
        ≡ exactly (
            p
            ++ (b'[' ∷ (prefix (print_node_module get_module (some n) c) ++ c.name)
                ++ (print_attrs c.meta ++ b'=' ∷ t))))
      × (read_literal t ≡ some (value_of c, b']' ∷ []))
append_content_reads get_module n c p h =
    let v = value_of c in
    (
      quot v ∷ (v ++ (quot v ∷ b']' ∷ [])),
      append_content-exactly get_module n c p,
      elim (Bool-cases (has_char b'\'' v)) [
        | inl e ↦ rw (e, until_quote b'"' v (b']' ∷ []) (rw e at h))
        | inr e ↦ rw (e, until_quote b'\'' v (b']' ∷ []) e)
      ],
    )

-- The value of an attribute is read up to its first apostrophe a.
pub append_attrs_cut :
    (m : Meta) (a b p : CString)
    → m.value ≡ a ++ b'\'' ∷ b
    → has_char b'\'' a ≡ false
    → (t : CString) × (append_attrs (m ∷ []) (holds p) (suc (length p))
        ≡ exactly (p ++ (b'[' ∷ b'@' ∷ (m.module_name ++ (b':' ∷ (m.name ++ (b'=' ∷ t)))))))
      × (read_literal t ≡ some (a, b ++ b'\'' ∷ b']' ∷ []))
append_attrs_cut m a b p e h =
    let t = b'\'' ∷ (m.value ++ (b'\'' ∷ b']' ∷ [])) in
    (
      t,
      append_attrs-exactly (m ∷ []) p ∙ ap (λ s. exactly (p ++ s)) (append-nil (attr_text m)),
      ap (λ s. until b'\'' (s ++ (b'\'' ∷ b']' ∷ []))) e
          ∙ ap (until b'\'') (append_assoc a (b'\'' ∷ b) (b'\'' ∷ b']' ∷ []))
          ∙ until_quote b'\'' a (b ++ b'\'' ∷ b']' ∷ []) h,
    )

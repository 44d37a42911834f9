-- ===== src/Filter/Printed.antt =====
-- The buffer of src/common.c holds what is printed, with no byte to spare and none out of bounds.
use netopeer.Common.{
  ◌≡◌, refl, sym, ap, ◌∙◌, ℕ, zero, suc, ◌+◌, ◌-◌, List, [], ◌∷◌, ◌++◌, Option, none, some, CString,
  length, length-append, arith,
}
use netopeer.Filter.{Module, Meta, NodeInfo}
use netopeer.Filter.Parts.{
  print_attrs, print_value, print_part, print, attrs, schema_parts, node_parts, content_part,
}
use netopeer.Filter.Buffer.{
  char, nul, Buf, realloc, sprintf, c_str, Sized, print_at_end, attr_text, attr_size, append_attrs,
  prefix, prefix_len, value_of, quot, print_node_module, append_content, append_node,
}
use mathlib.Core.List.{append_assoc, append-nil}

abbrev pub chars : CString → Buf
chars [] = []
chars (x ∷ s) = char x ∷ chars s

-- The buffer that holds a string and nothing more, with its size.
abbrev pub holds : CString → Buf
holds [] = nul ∷ []
holds (x ∷ s) = char x ∷ holds s

abbrev pub exactly : CString → Sized
exactly p = some (holds p, suc (length p))

-- The buffer begins with the text p.
abbrev pub Starts : CString → Buf → Type 0
Starts p b = (r : Buf) × (b ≡ chars p ++ r)

pub c_str-holds : (p : CString) → c_str (holds p) ≡ some p
unfolding c_str
c_str-holds [] = refl
c_str-holds (x ∷ p) = rw (c_str-holds p)

pub Starts-holds : (p s : CString) → Starts p (holds (p ++ s))
Starts-holds [] s = (holds s, refl)
Starts-holds (x ∷ p) s = let (r, e) = Starts-holds p s in (r, ap (λ t. char x ∷ t) e)

pub sprintf_new :
    (s : CString) (r : Buf) → sprintf zero s (realloc (suc (length s)) r) ≡ some (holds s)
unfolding sprintf realloc
sprintf_new [] [] = refl
sprintf_new [] (c ∷ r) = refl
sprintf_new (x ∷ s) [] = rw (sprintf_new s [])
sprintf_new (x ∷ s) (c ∷ r) = rw (sprintf_new s r)

sprintf_after :
    (p s : CString) (r : Buf) (n : ℕ)
    → n ≡ length p + suc (length s)
    → sprintf (length p) s (realloc n (chars p ++ r)) ≡ some (holds (p ++ s))
unfolding sprintf realloc
sprintf_after [] s r n e = let k : n ≡ suc (length s) = omega (arith, e) in rw k (sprintf_new s r)
sprintf_after (x ∷ p) s r zero e = absurd (omega (arith, e))
sprintf_after (x ∷ p) s r (suc n) e = rw (sprintf_after p s r n (omega (arith, e)))

print_at_end-exactly :
    (p s : CString) (b : Buf) (size new_size : ℕ)
    → Starts p b
    → size ≡ suc (length p)
    → new_size ≡ size + length s
    → print_at_end size new_size s b ≡ exactly (p ++ s)
unfolding print_at_end
print_at_end-exactly p s b size new_size (r, e) h k =
    let n : size - 1 ≡ length p = omega (arith, h) in
    let a = sprintf_after p s r new_size (omega (arith, h, k)) in
    let l : new_size ≡ suc (length (p ++ s)) = omega (arith, h, k, length-append p s) in
    rw (print_at_end, n, e, a, l)

pub Starts-self : (p : CString) → Starts p (holds p)
Starts-self [] = (nul ∷ [], refl)
Starts-self (x ∷ p) = let (r, e) = Starts-self p in (r, ap (λ t. char x ∷ t) e)

length-attr_text : (m : Meta) (size : ℕ) → attr_size m size ≡ size + length (attr_text m)
length-attr_text m size = omega (
  arith,
  length-append m.module_name
      (b':' ∷ (m.name ++ (b'=' ∷ b'\'' ∷ (m.value ++ (b'\'' ∷ b']' ∷ []))))),
  length-append m.name (b'=' ∷ b'\'' ∷ (m.value ++ (b'\'' ∷ b']' ∷ []))),
  length-append m.value (b'\'' ∷ b']' ∷ []),
)

pub append_attrs-exactly :
    (ms : List Meta) (p : CString)
    → append_attrs ms (holds p) (suc (length p)) ≡ exactly (p ++ print_attrs ms)
unfolding append_attrs
append_attrs-exactly [] p = rw (append-nil p)
append_attrs-exactly (m ∷ ms) p =
    let a =
      print_at_end-exactly p (attr_text m) (holds p) (suc (length p)) (attr_size m (suc (length p)))
        (Starts-self p) refl (length-attr_text m (suc (length p))) in
    rw (append_attrs, a, append_attrs-exactly ms (p ++ attr_text m))
      (ap exactly (append_assoc p (attr_text m) (print_attrs ms)))

length-prefix : (m : Option Module) → length (prefix m) ≡ prefix_len m
length-prefix none = refl
length-prefix (some m) = omega (arith, length-append m.name (b':' ∷ []))

name_printed :
    (c : ℕ) (m : Option Module) (name p : CString) (b : Buf)
    → Starts p b
    → print_at_end
        (suc (length p))
        (suc (length p) + 1 + prefix_len m + length name)
        (c ∷ (prefix m ++ name))
        b
      ≡ exactly (p ++ c ∷ (prefix m ++ name))
name_printed c m name p b h =
    print_at_end-exactly p (c ∷ (prefix m ++ name)) b (suc (length p))
      (suc (length p) + 1 + prefix_len m + length name) h refl
      (omega (arith, length-prefix m, length-append (prefix m) name))

value_printed :
    (v p : CString)
    → print_at_end (suc (length p)) (suc (length p) + 2 + length v + 2) (print_value v) (holds p)
      ≡ exactly (p ++ print_value v)
value_printed v p =
    print_at_end-exactly p (print_value v) (holds p) (suc (length p))
      (suc (length p) + 2 + length v + 2) (Starts-self p) refl
      (omega (arith, length-append v (quot v ∷ b']' ∷ [])))

pub print-attrs : (ms : List Meta) → print (attrs ms) ≡ print_attrs ms
print-attrs [] = refl
print-attrs (m ∷ ms) = rw (print-attrs ms)

schema_attrs :
    (o : Option Module) (ms : List Meta) (q : CString)
    → elim o as (λ _. Sized) [
      | none ↦ some (holds q, suc (length q))
      | some m ↦ append_attrs ms (holds q) (suc (length q))
    ]
      ≡ exactly (q ++ print (schema_parts o ms))
schema_attrs none ms q = ap exactly (sym (append-nil q))
schema_attrs (some m) ms q = rw (append_attrs-exactly ms q, print-attrs ms)

module _ (get_module : CString → Option Module) where
  pub append_node-exactly :
      (parent : Option NodeInfo) (n : NodeInfo) (p : CString) (b : Buf)
      → Starts p b
      → append_node get_module parent n b (suc (length p))
        ≡ exactly (p ++ print (node_parts get_module parent n))
  unfolding append_node
  append_node-exactly parent n p b h =
      let m = print_node_module get_module parent n in
      let a = name_printed b'/' m n.name p b h in
      let q = p ++ b'/' ∷ (prefix m ++ n.name) in
      rw (append_node, a, schema_attrs n.schema n.meta q)
        (ap exactly
          (append_assoc p (b'/' ∷ (prefix m ++ n.name)) (print (schema_parts n.schema n.meta))))

  pub append_content-exactly :
      (n c : NodeInfo) (p : CString)
      → append_content get_module (some n) c (holds p) (suc (length p))
        ≡ exactly (p ++ print_part (content_part get_module n c))
  unfolding append_content
  append_content-exactly n c p =
      let m = print_node_module get_module (some n) c in
      let s = b'[' ∷ (prefix m ++ c.name) in
      let a = name_printed b'[' m c.name p (holds p) (Starts-self p) in
      let t = p ++ s ++ print_attrs c.meta in
      rw (append_content, a, append_attrs-exactly c.meta (p ++ s), value_printed (value_of c) t)
        (ap exactly (
          append_assoc (p ++ s) (print_attrs c.meta) (print_value (value_of c))
          ∙ append_assoc p s (print_attrs c.meta ++ print_value (value_of c))))

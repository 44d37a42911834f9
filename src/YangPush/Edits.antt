-- ===== src/YangPush/Edits.antt =====
-- The edits of a notification of src/yang_push.c are a map from targets to their last changes.
use netopeer.Common.{
  sym, ltb, true, ◌≡◌, refl, ap, ◌∙◌, ◌+◌, false, List, [], ◌∷◌, ◌++◌, Option, none, some, CString,
  str_eq, strcmp, All, All-append, arith, inl, inr, Bool-cases, if◌then◌else◌,
}
use netopeer.Common.StringLaws.{str_eq_refl, str_eq_iff}
use netopeer.Sysrepo.{sr_ok}
use netopeer.Filter.Buffer.{has_char}
use netopeer.Filter.Quoted.{until_quote}
use netopeer.YangPush.{Op, Edit, ChangeNtf, OnChange, ChangedNode}
use netopeer.YangPush.Change.{Other, selected, without_target, sought_target, new_edit, edit_append}

-- The edit of a target.
abbrev pub lookup : CString → List Edit → Option Edit
lookup p [] = none
lookup p (e ∷ es) = if str_eq e.target p then some e else lookup p es

-- No two edits have one target.
abbrev pub Unique : List Edit → Type 0
Unique [] = Unit {0}
Unique (e ∷ es) = All (λ f. str_eq f.target e.target ≡ false) es × Unique es

sought :
    (other : Other) (p : CString)
    → has_char b'\'' p ≡ false
    → sought_target other p ≡ some (λ t. str_eq t p)
unfolding str_eq strcmp
sought other p h = rw (sought_target, until_quote b'\'' p (b']' ∷ []) h)

lookup-without_target :
    (p : CString) (es : List Edit) → lookup p (without_target (λ t. str_eq t p) es) ≡ none
lookup-without_target p [] = refl
lookup-without_target p (e ∷ es) = ground (arith, lookup-without_target p es)

lookup_other :
    (q p : CString) (es : List Edit)
    → str_eq p q ≡ false
    → lookup q (without_target (λ t. str_eq t p) es) ≡ lookup q es
lookup_other q p [] h = refl
lookup_other q p (e ∷ es) h = elim (Bool-cases (str_eq e.target p)) [
  | inr k ↦ rw (k, lookup_other q p es h)
  | inl k ↦
      let same : e.target ≡ p = (str_eq_iff e.target p).0 k in
      let o : str_eq e.target q ≡ false = ap (λ t. str_eq t q) same ∙ h in
      rw (k, o, lookup_other q p es h)
]

lookup-append :
    (p : CString) (es : List Edit) (e : Edit)
    → lookup p (es ++ e ∷ []) ≡ elim (lookup p es) as (λ _. Option Edit) [
      | none ↦ if str_eq e.target p then some e else none
      | some f ↦ some f
    ]
lookup-append p [] e = refl
lookup-append p (f ∷ es) e = ground (arith, lookup-append p es e)

without_target-All :
    (P : Edit → Type 0) (p : CString) (es : List Edit)
    → All P es
    → All P (without_target (λ t. str_eq t p) es)
without_target-All P p [] h = tt
without_target-All P p (e ∷ es) h = elim (Bool-cases (str_eq e.target p)) [
  | inl k ↦ rw k (without_target-All P p es h.1)
  | inr k ↦ rw k (h.0, without_target-All P p es h.1)
]

without_target-Unique :
    (p : CString) (es : List Edit) → Unique es → Unique (without_target (λ t. str_eq t p) es)
without_target-Unique p [] h = tt
without_target-Unique p (e ∷ es) h = elim (Bool-cases (str_eq e.target p)) [
  | inl k ↦ rw k (without_target-Unique p es h.1)
  | inr k ↦ rw k (
    without_target-All (λ f. str_eq f.target e.target ≡ false) p es h.0,
    without_target-Unique p es h.1,
  )
]

-- Nothing in the list has the target.
append-Unique :
    (es : List Edit) (e : Edit)
    → Unique es
    → All (λ f. str_eq e.target f.target ≡ false) es
    → Unique (es ++ e ∷ [])
append-Unique [] e h k = (tt, tt)
append-Unique (f ∷ es) e h k = (
  All-append (λ g. str_eq g.target f.target ≡ false) es (e ∷ []) h.0 (k.0, tt),
  append-Unique es e h.1 k.1,
)

without_target-Free :
    (p : CString) (es : List Edit)
    → All (λ f. str_eq p f.target ≡ false) (without_target (λ t. str_eq t p) es)
without_target-Free p [] = tt
without_target-Free p (e ∷ es) = elim (Bool-cases (str_eq e.target p)) [
  | inl k ↦ rw k (without_target-Free p es)
  | inr k ↦ rw k (swapped e.target p k, without_target-Free p es)
]
  where
    swapped : (a b : CString) → str_eq a b ≡ false → str_eq b a ≡ false
    swapped a b h = elim (Bool-cases (str_eq b a)) [
      | inr k ↦ k
      | inl k ↦
          let same : b ≡ a = (str_eq_iff b a).0 k in
          cc (str_eq_refl a, ap (λ t. str_eq a t) same, h)
    ]

selected_none :
    (p q : CString) (es : List Edit)
    → str_eq q p ≡ true
    → All (λ f. str_eq f.target q ≡ false) es
    → selected (λ t. str_eq t p) es ≡ 0
selected_none p q [] h k = refl
selected_none p q (e ∷ es) h k =
    let same : q ≡ p = (str_eq_iff q p).0 h in
    let first : str_eq e.target p ≡ false = ap (λ t. str_eq e.target t) (sym same) ∙ k.0 in
    rw first (selected_none p q es h k.1)

selected-Unique :
    (p : CString) (es : List Edit) → Unique es → ltb 1 (selected (λ t. str_eq t p) es) ≡ false
selected-Unique p [] w = refl
selected-Unique p (e ∷ es) w = elim (Bool-cases (str_eq e.target p)) [
  | inl k ↦ rw (k, selected_none p e.target es k w.0)
  | inr k ↦ rw k (selected-Unique p es w.1)
]

-- Appending an edit of a target that has no apostrophe gives the target the new edit, which has the
-- next ID, and leaves the edits of all other targets; no two edits have one target.
pub edit_append_latest :
    (other : Other) (op : Op) (n : ChangedNode) (ntf : ChangeNtf) (d : OnChange)
    → has_char b'\'' n.path ≡ false
    → Unique ntf.edits
    → (u : ChangeNtf) × (edit_append other op n ntf d
        ≡ (sr_ok, u, record d { edit_id = d.edit_id + 1 }))
      × Unique u.edits
      × (lookup n.path u.edits ≡ some (new_edit d.edit_id op n))
      × ((q : CString) → str_eq n.path q ≡ false → lookup q u.edits ≡ lookup q ntf.edits)
unfolding edit_append
edit_append_latest other op n ntf d h w =
    let e = new_edit d.edit_id op n in
    let rest = without_target (λ t. str_eq t n.path) ntf.edits in
    (
      record ntf { edits = rest ++ e ∷ [] },
      rw (edit_append, sought other n.path h, selected-Unique n.path ntf.edits w),
      append-Unique rest e (without_target-Unique n.path ntf.edits w)
          (without_target-Free n.path ntf.edits),
      rw (lookup-append n.path rest e, lookup-without_target n.path ntf.edits, str_eq_refl n.path),
      λ q o.
          rw (lookup-append q rest e, lookup_other q n.path ntf.edits o)
            (kept q o (lookup q ntf.edits)),
    )
  where
    kept :
        (q : CString)
        → str_eq n.path q ≡ false
        → (r : Option Edit)
        → elim r as (λ _. Option Edit) [
          | none ↦ if str_eq n.path q then some (new_edit d.edit_id op n) else none
          | some f ↦ some f
        ]
          ≡ r
    kept q o none = rw o
    kept q o (some f) = refl

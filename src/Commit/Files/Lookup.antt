-- ===== src/Commit/Files/Lookup.antt =====
-- How opening, unlinking and renaming files changes what is found by a name, for
-- src/netconf_confirmed_commit.c.
use netopeer.Common.{
  ℕ, ◌≡◌, ◌≢◌, refl, inl, inr, true, false, ◌||◌, List, [], ◌∷◌, ◌++◌, none, some, CString, arith,
  All, Any, str_eq, Bool-cases, Option-cases, sym, ap, ◌∙◌, lit, starts_with,
}
use netopeer.Common.StringLaws.{str_eq_iff}
use netopeer.Commit.Types.{File, Entry, World}
use netopeer.Commit.Files.{
  find_file, unlink, write_file, rename, rename_failed_file, backup_file, module_name_of, names_of,
  meta_file,
}

pub str_eq_of_ne : (a b : CString) → a ≢ b → str_eq a b ≡ false
str_eq_of_ne a b n = elim (Bool-cases (str_eq a b)) [
  | inl e ↦ absurd (n ((str_eq_iff a b).0 e))
  | inr e ↦ e
]

pub find_file-unlink :
    (name other : CString) (es : List Entry)
    → other ≢ name
    → find_file name (unlink other es) ≡ find_file name es
unfolding find_file unlink
find_file-unlink name other [] n = refl
find_file-unlink name other (e ∷ es) n = elim (Bool-cases (str_eq e.name other)) [
  | inl o ↦
      let f : str_eq e.name name ≡ false =
        str_eq_of_ne e.name name (λ q. n (sym ((str_eq_iff e.name other).0 o) ∙ q)) in
      rw (o, f) (find_file-unlink name other es n)
  | inr o ↦ rw (o, find_file) (rw (find_file-unlink name other es n))
]

pub find_file-write_same :
    (name : CString) (file : File) (es : List Entry)
    → find_file name (write_file name file es) ≡ some file
unfolding find_file write_file
find_file-write_same name file es = rw ((str_eq_iff name name).1 refl)

pub find_file-write_other :
    (name other : CString) (file : File) (es : List Entry)
    → other ≢ name
    → find_file name (write_file other file es) ≡ find_file name es
unfolding find_file write_file
find_file-write_other name other file es n =
    rw (str_eq_of_ne other name n) (find_file-unlink name other es n)

abbrev last : CString → ℕ
last [] = 0
last (c ∷ []) = c
last (c ∷ d ∷ s) = last (d ∷ s)

last-append : (s : CString) (c : ℕ) (t : CString) → last (s ++ c ∷ t) ≡ last (c ∷ t)
last-append [] c t = refl
last-append (x ∷ []) c t = refl
last-append (x ∷ y ∷ s) c t = last-append (y ∷ s) c t

-- A file renamed because it failed is no backup.
pub failed_ne_backup : (m now a : CString) → m ++ b'-' ∷ (now ++ lit ".failed") ≢ backup_file a
unfolding lit
failed_ne_backup m now a e = differ (
    sym (last-append (b'-' ∷ now) b'.' (lit "failed"))
    ∙ sym (last-append m b'-' (now ++ lit ".failed"))
    ∙ ap last e
    ∙ last-append a b'.' (lit "json"))
  where
    differ : ◌≡◌ {A = ℕ} b'd' b'n' → ⊥
    differ q = omega (arith, q)

pub find_file-unlink_same :
    (name : CString) (es : List Entry) → find_file name (unlink name es) ≡ none
unfolding find_file unlink
find_file-unlink_same name [] = refl
find_file-unlink_same name (e ∷ es) = ground (arith, find_file-unlink_same name es)

pub skipped_none :
    (x : CString)
    → (str_eq x (lit ".") || str_eq x (lit "..") || str_eq x meta_file) ≡ true
    → module_name_of x ≡ none
unfolding module_name_of lit starts_with
skipped_none x h = elim (Bool-cases (str_eq x (lit "."))) [
  | inl e ↦ by_name (lit ".") e refl
  | inr e ↦ elim (Bool-cases (str_eq x (lit ".."))) [
    | inl f ↦ by_name (lit "..") f refl
    | inr f ↦ by_name meta_file (ground (arith, e, f)) refl
  ]
]
  where
    by_name : (y : CString) → str_eq x y ≡ true → module_name_of y ≡ none → module_name_of x ≡ none
    by_name y e h = ap module_name_of ((str_eq_iff x y).0 e) ∙ h

pub rename_failed_file-other :
    (w : World) (m x a : CString) (es : List Entry)
    → x ≢ backup_file a
    → find_file (backup_file a) (rename_failed_file w m x es) ≡ find_file (backup_file a) es
unfolding rename_failed_file rename
rename_failed_file-other w m x a es n = elim (Bool-cases (w.can_rename x)) [
  | inr c ↦ rw (c, rename_failed_file)
  | inl c ↦ elim (Option-cases (find_file x es)) [
    | inl f ↦ rw (c, f, rename_failed_file, rename)
    | inr (file, f) ↦
        rw (c, f, rename_failed_file, rename)
          (find_file-write_other (backup_file a) (m ++ b'-' ∷ (w.now_text ++ lit ".failed")) file
              (unlink x es) (failed_ne_backup m w.now_text a)
            ∙ find_file-unlink (backup_file a) x es n)
  ]
]

pub rename_failed_file-missing :
    (w : World) (m x : CString) (es : List Entry)
    → find_file x es ≡ none
    → rename_failed_file w m x es ≡ es
unfolding rename_failed_file rename
rename_failed_file-missing w m x es f = ground (arith, f)

pub find_file-Any :
    (name : CString) (es : List Entry) (file : File)
    → find_file name es ≡ some file
    → Any (λ x. x ≡ name) (names_of es)
unfolding find_file
find_file-Any name [] file h = cc
find_file-Any name (e ∷ es) file h = elim (Bool-cases (str_eq e.name name)) [
  | inl q ↦ inl ((str_eq_iff e.name name).0 q)
  | inr q ↦ inr (find_file-Any name es file (rw (q, find_file) at h))
]

pub names_of-All :
    (P : CString → Type 0) (es : List Entry) → All (λ e. P e.name) es → All P (names_of es)
names_of-All P [] h = tt
names_of-All P (e ∷ es) h = (h.0, names_of-All P es h.1)

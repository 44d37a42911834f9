-- ===== src/Nacm/Ordered/Placed.antt =====
-- Where an item of an ordered list goes.
use netopeer.Common.{
  ◌==◌, ◌&&◌, ◌≡◌, refl, subst, sym, ap, ◌∙◌, Bool, true, false, List, [], ◌∷◌, ◌++◌, some, CString,
  strn_eq, starts_with, length, arith, All, if◌then◌else◌,
}
use netopeer.Nacm.Ordered.{insert_after, after_quote, quote_index, place}

-- strncmp with the length of the second string asks whether the first one begins with it.
strn_eq-starts_with :
    (a key rest : CString) → strn_eq a (key ++ rest) (length key) ≡ starts_with a key
unfolding strn_eq starts_with
strn_eq-starts_with [] [] rest = refl
strn_eq-starts_with (x ∷ a) [] rest = refl
strn_eq-starts_with [] (c ∷ key) rest = refl
strn_eq-starts_with (x ∷ a) (c ∷ key) rest = ap (λ b. x == c && b) (strn_eq-starts_with a key rest)

-- A string without a single quote.
abbrev pub is_unquoted : CString → Bool
is_unquoted [] = true
is_unquoted (c ∷ s) = if c == b'\'' then false else is_unquoted s

after_quote-append :
    (s rest : CString) → is_unquoted s ≡ true → after_quote (s ++ b'\'' ∷ rest) ≡ some rest
after_quote-append [] rest h = refl
after_quote-append (c ∷ s) rest h = ground (arith, after_quote-append s rest)

quote_index-append :
    (s rest : CString) → is_unquoted s ≡ true → quote_index (s ++ b'\'' ∷ rest) ≡ some (length s)
quote_index-append [] rest h = refl
quote_index-append (c ∷ s) rest h = ground (arith, quote_index-append s rest)

-- The predicate of an item, such as [name='key'], by what stands before and behind the key.
abbrev pub predicate : CString → CString → CString → CString
predicate opening key closing = (b'[' ∷ opening) ++ b'\'' ∷ (key ++ b'\'' ∷ closing)

module _ {A : Type 0} (name : A → CString) where
  insert_after-first :
      (key rest : CString) (item : A) (before after : List A) (q : A)
      → All (λ x. starts_with (name x) key ≡ false) before
      → starts_with (name q) key ≡ true
      → insert_after name (key ++ rest) (length key) item (before ++ q ∷ after)
        ≡ some (before ++ q ∷ item ∷ after)
  unfolding insert_after
  insert_after-first key rest item [] after q h s = rw (strn_eq-starts_with (name q) key rest, s)
  insert_after-first key rest item (x ∷ before) after q h s = rw (
    strn_eq-starts_with (name x) key rest,
    h.0,
    insert_after-first key rest item before after q h.1 s,
  )

  place-predicate :
      (opening key closing : CString) (item : A) (items : List A)
      → is_unquoted opening ≡ true
      → is_unquoted key ≡ true
      → place name (predicate opening key closing) item items
        ≡ insert_after name (key ++ b'\'' ∷ closing) (length key) item items
  unfolding place
  place-predicate opening key closing item items o k =
      rw (after_quote-append opening (key ++ b'\'' ∷ closing) o, quote_index-append key closing k)

  -- The item goes directly behind the first one whose name begins with the key: behind the one that
  -- has the name, if no name before it begins so.
  pub place_behind :
      (opening key closing : CString) (item q : A) (before after : List A)
      → is_unquoted opening ≡ true
      → is_unquoted key ≡ true
      → All (λ x. starts_with (name x) key ≡ false) before
      → starts_with (name q) key ≡ true
      → place name (predicate opening key closing) item (before ++ q ∷ after)
        ≡ some (before ++ q ∷ item ∷ after)
  place_behind opening key closing item q before after o k h s =
      place-predicate opening key closing item (before ++ q ∷ after) o k
      ∙ insert_after-first key (b'\'' ∷ closing) item before after q h s

  starts_with-append : (key s : CString) → starts_with (key ++ s) key ≡ true
  unfolding starts_with
  starts_with-append [] [] = refl
  starts_with-append [] (c ∷ s) = refl
  starts_with-append (c ∷ key) s = ground (arith, starts_with-append key s)

  -- Where the predicate has no quotes but those around the name of `p`, an item that should go
  -- behind `p` goes behind an earlier `q` instead whenever the name of `q` is that of `p` with
  -- something behind it, and no name before `q` begins with that of `p`.
  pub place_misplaced :
      (opening closing ext : CString) (item p q : A) (before mid after : List A)
      → is_unquoted opening ≡ true
      → is_unquoted (name p) ≡ true
      → All (λ x. starts_with (name x) (name p) ≡ false) before
      → name q ≡ name p ++ ext
      → place name (predicate opening (name p) closing) item (before ++ q ∷ (mid ++ p ∷ after))
        ≡ some (before ++ q ∷ item ∷ (mid ++ p ∷ after))
  place_misplaced opening closing ext item p q before mid after o k h e =
      place_behind opening (name p) closing item q before (mid ++ p ∷ after) o k h
        (subst (λ n. starts_with n (name p) ≡ true) (sym e) (starts_with-append (name p) ext))

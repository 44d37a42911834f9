-- ===== src/Monitoring/Counted.antt =====
-- Whose counters src/netconf_monitoring.c changes.
use netopeer.Common.{
  ◌∙◌, ℕ, suc, ◌==◌, ==_iff, ◌≡◌, refl, inl, inr, true, false, List, [], ◌∷◌, ◌++◌, Option, none,
  some, incr32, if◌then◌else◌, arith, Bool-cases, Option-cases, length, ap,
}
use netopeer.Monitoring.{
  Stats, Session, Ncm, no_stats, index_of, find_session_idx, change_at, count, session_add,
  remove_at, count_dropped, session_del,
}

-- The statistics kept for a session's ID.
abbrev pub lookup : ℕ → List Session → List Stats → Option Stats
lookup id [] ts = none
lookup id (s ∷ ss) [] = none
lookup id (s ∷ ss) (t ∷ ts) = if s.id == id then some t else lookup id ss ts

-- The second statistics are the first with one session's changed.
abbrev pub ChangedFor : (Stats → Stats) → ℕ → List Session → List Stats → List Stats → Type 0
ChangedFor f id ss ts us =
    (other : ℕ)
    → lookup other ss us ≡ (
        if id == other
        then elim (lookup other ss ts) [ none ↦ none | some t ↦ some (f t) ]
        else lookup other ss ts)

here-ChangedFor :
    (f : Stats → Stats) (id : ℕ) (s : Session) (ss : List Session) (t : Stats) (ts : List Stats)
    → (s.id == id) ≡ true
    → ChangedFor f id (s ∷ ss) (t ∷ ts) (f t ∷ ts)
here-ChangedFor f id s ss t ts e other =
    let same : s.id ≡ id = (==_iff s.id id).0 e in
    elim (Bool-cases (s.id == other)) [ inl o ↦ rw (← same, o) | inr o ↦ rw (← same, o) ]

later-ChangedFor :
    (f : Stats → Stats) (id : ℕ) (s : Session) (ss : List Session) (t : Stats) (ts us : List Stats)
    → (s.id == id) ≡ false
    → ChangedFor f id ss ts us
    → ChangedFor f id (s ∷ ss) (t ∷ ts) (t ∷ us)
later-ChangedFor f id s ss t ts us e c other = elim (Bool-cases (s.id == other)) [
  | inr o ↦ rw o (c other)
  | inl o ↦ rw (o, differ ((==_iff s.id other).0 o))
]
  where
    differ : s.id ≡ other → (id == other) ≡ false
    differ q = ground (arith, e, q)

change_at_found :
    (f : Stats → Stats) (id i : ℕ) (ss : List Session) (ts : List Stats)
    → length ss ≡ length ts
    → index_of id ss ≡ some i
    → (us : List Stats) × (change_at f i ts ≡ some us) × ChangedFor f id ss ts us
unfolding index_of change_at
change_at_found f id i [] ts l x = cc
change_at_found f id i (s ∷ ss) [] l x = absurd (omega (arith, l))
change_at_found f id i (s ∷ ss) (t ∷ ts) l x = elim (Bool-cases (s.id == id)) [
  | inl e ↦
      let first : 0 ≡ i = ground (arith, e, x) in
      (f t ∷ ts, rw (← first), here-ChangedFor f id s ss t ts e)
  | inr e ↦ elim (Option-cases (index_of id ss)) [
    | inl y ↦ cc (rw (e, y, index_of) at x)
    | inr (j, y) ↦
        let after : suc j ≡ i = ground (arith, e, y, x) in
        let (us, c, h) = change_at_found f id j ss ts (omega (arith, l)) y in
        (t ∷ us, rw (← after, change_at, c), later-ChangedFor f id s ss t ts us e h)
  ]
]

-- Counting for a session that is monitored and in the table, both arrays of one length, changes its
-- statistics and the global ones, and no other session's, nor anything else.
pub count-ChangedFor :
    (f : Stats → Stats) (s : Session) (n : Ncm) (i : ℕ)
    → s.is_monitored ≡ true
    → length n.sessions ≡ length n.session_stats
    → index_of s.id n.sessions ≡ some i
    → (m : Ncm) × (count f s n ≡ some m)
      × (m ≡ record n { session_stats = m.session_stats; global_stats = f n.global_stats })
      × ChangedFor f s.id n.sessions n.session_stats m.session_stats
unfolding count find_session_idx
count-ChangedFor f s n i o l x =
    let (us, c, h) = change_at_found f s.id i n.sessions n.session_stats l x in
    (
      record n { session_stats = us; global_stats = f n.global_stats },
      rw (o, count, find_session_idx, x, c),
      refl,
      h,
    )

-- Counting for a session that is monitored but not in the table, which is not empty, changes the
-- counter of the first session in it and the global one.
pub count_missing :
    (f : Stats → Stats) (s first : Session) (n : Ncm) (ss : List Session) (t : Stats)
    (ts : List Stats)
    → s.is_monitored ≡ true
    → n.sessions ≡ first ∷ ss
    → n.session_stats ≡ t ∷ ts
    → index_of s.id n.sessions ≡ none
    → count f s n ≡ some (record n { session_stats = f t ∷ ts; global_stats = f n.global_stats })
unfolding count find_session_idx change_at
count_missing f s first n ss t ts o e g x = rw (o, count, find_session_idx, x, g)

index_of-append :
    (s : Session) (ss : List Session)
    → index_of s.id ss ≡ none
    → index_of s.id (ss ++ s ∷ []) ≡ some (length ss)
unfolding index_of
index_of-append s [] x = rw ((==_iff s.id s.id).1 refl)
index_of-append s (r ∷ ss) x = ground (arith, x, index_of-append s ss)

remove_at-append {ℓ} :
    {A : Type ℓ} (x : A) (xs : List A) → remove_at (length xs) (xs ++ x ∷ []) ≡ some xs
unfolding remove_at
remove_at-append x [] = refl
remove_at-append x (y ∷ xs) = rw (remove_at-append x xs)

session_add-eq :
    (s : Session) (n : Ncm)
    → s.is_monitored ≡ true
    → session_add s n ≡ record n {
      in_sessions = incr32 n.in_sessions;
      sessions = n.sessions ++ s ∷ [];
      session_stats = n.session_stats ++ no_stats ∷ [];
    }
unfolding session_add
session_add-eq s n o = ground (arith, o)

session_del_found :
    (s : Session) (n : Ncm) (i : ℕ) (ss : List Session) (ts : List Stats)
    → s.is_monitored ≡ true
    → index_of s.id n.sessions ≡ some i
    → remove_at i n.sessions ≡ some ss
    → remove_at i n.session_stats ≡ some ts
    → session_del s n ≡ some (record (count_dropped s n) { sessions = ss; session_stats = ts })
unfolding session_del find_session_idx
session_del_found s n i ss ts o x a b = ground (arith, o, x, a, b)

-- A session of a new ID that is added and deleted again leaves the table as it was; one more
-- session has come in, and one more was dropped unless it was closed.
add_then_del :
    (s : Session) (n : Ncm)
    → s.is_monitored ≡ true
    → length n.sessions ≡ length n.session_stats
    → index_of s.id n.sessions ≡ none
    → session_del s (session_add s n)
      ≡ some (count_dropped s (record n { in_sessions = incr32 n.in_sessions }))
add_then_del s n o l x =
    ap (session_del s) (session_add-eq s n o)
    ∙ session_del_found s
        (record n {
          in_sessions = incr32 n.in_sessions;
          sessions = n.sessions ++ s ∷ [];
          session_stats = n.session_stats ++ no_stats ∷ [];
        })
        (length n.sessions) n.sessions n.session_stats o (index_of-append s n.sessions x)
        (remove_at-append s n.sessions)
        (ap (λ k. remove_at k (n.session_stats ++ no_stats ∷ [])) l
          ∙ remove_at-append no_stats n.session_stats)
    ∙ dropped
  where
    dropped :
        some
          (record (count_dropped s (record n {
            in_sessions = incr32 n.in_sessions;
            sessions = n.sessions ++ s ∷ [];
            session_stats = n.session_stats ++ no_stats ∷ [];
          })) { sessions = n.sessions; session_stats = n.session_stats })
        ≡ some (count_dropped s (record n { in_sessions = incr32 n.in_sessions }))
    dropped = ground arith

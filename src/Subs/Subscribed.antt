-- ===== src/Subs/Subscribed.antt =====
-- sub_ntf_sr_subscribe of src/subscribed_notifications.c makes all of its sysrepo subscriptions or
-- leaves none.
use netopeer.Common.{
  ◌≡◌, refl, ap, sym, subst, ◌∙◌, ◌⊎◌, inl, inr, ℕ, true, false, List, [], ◌∷◌, ◌++◌, CString, map,
  All, Bool-cases,
}
use netopeer.Sysrepo.{sr_ok, is_ok}
use netopeer.Subs.{CbArg}
use netopeer.Subs.Subscribe.{
  Answers, Subscribed, ContextModule, subscribe_failed, subscribe_all, stream_modules,
  sub_ntf_sr_subscribe,
}
use mathlib.Core.List.{append_assoc, append-nil}

abbrev pub id_of : Answers → CString → ℕ
id_of answer m = (answer m).1

-- Each module was answered with SR_ERR_OK.
abbrev pub AllOk : Answers → List CString → Type 0
AllOk answer ms = All (λ m. is_ok (answer m).0 ≡ true) ms

-- The modules before the first that fails, and that module.
abbrev pub FailsAfter : Answers → List CString → List CString → CString → Type 0
FailsAfter answer ms before m =
    (after : List CString) × (ms ≡ before ++ m ∷ after)
    × AllOk answer before
    × (is_ok (answer m).0 ≡ false)

abbrev pub Complete : Answers → List CString → List ℕ → Subscribed → Type 0
Complete answer ms ids r =
    (AllOk answer ms
      × (r ≡ record { code = sr_ok; sub_ids = ids ++ map (id_of answer) ms; dropped = [] }))
    ⊎ ((before : List CString) × (m : CString) × FailsAfter answer ms before m
        × (r ≡ record {
          code = (answer m).0;
          sub_ids = [];
          dropped = ids ++ map (id_of answer) before;
        }))

pub subscribe_all-Complete :
    (answer : Answers) (ms : List CString) (ids : List ℕ)
    → Complete answer ms ids (subscribe_all answer ms ids)
unfolding subscribe_all
subscribe_all-Complete answer [] ids = inl (tt, rw (append-nil ids))
subscribe_all-Complete answer (m ∷ ms) ids = elim (Bool-cases (is_ok (answer m).0)) [
  | inr e ↦ inr ([], m, (ms, refl, tt, e), rw (subscribe_all, e, append-nil ids))
  | inl e ↦
      let ids2 = ids ++ (answer m).1 ∷ [] in
      let step : subscribe_all answer (m ∷ ms) ids ≡ subscribe_all answer ms ids2 =
        rw (subscribe_all, e) in
      subst (Complete answer (m ∷ ms) ids) (sym step)
        (next (subscribe_all-Complete answer ms ids2) e)
]
  where
    next :
        Complete answer ms
          (ids ++ (answer m).1 ∷ [])
          (subscribe_all answer ms (ids ++ (answer m).1 ∷ []))
        → is_ok (answer m).0 ≡ true
        → Complete answer (m ∷ ms) ids (subscribe_all answer ms (ids ++ (answer m).1 ∷ []))
    next (inl (o, r)) e = inl (
      (e, o),
      r
          ∙ ap (λ t. record { code = sr_ok; sub_ids = t; dropped = [] })
              (append_assoc ids ((answer m).1 ∷ []) (map (id_of answer) ms)),
    )
    next (inr (before, f, (after, split, o, bad), r)) e = inr (
      m ∷ before,
      f,
      (after, ap (λ t. m ∷ t) split, (e, o), bad),
      r
          ∙ ap (subscribe_failed (answer f).0)
              (append_assoc ids ((answer m).1 ∷ []) (map (id_of answer) before)),
    )

-- Either sysrepo answered SR_ERR_OK for each module of the stream, and its IDs are those of the
-- subscription, in the order of the modules; or a module failed, the code is that of the first one,
-- no ID is left, and exactly the IDs of the modules before it are unsubscribed.
pub sub_ntf_sr_subscribe-Complete :
    (ms : List ContextModule) (answer : Answers) (stream : CString) (arg : CbArg)
    → Complete answer (stream_modules ms stream) [] (sub_ntf_sr_subscribe ms answer stream arg).0
unfolding sub_ntf_sr_subscribe
sub_ntf_sr_subscribe-Complete ms answer stream arg =
    subscribe_all-Complete answer (stream_modules ms stream) []

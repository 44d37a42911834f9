-- ===== src/Commit/Rpc/Confirms.antt =====
-- What a commit without "confirmed" does: src/netconf_confirmed_commit.c.
use netopeer.Common.{
  ==_iff, ◌==◌, inl, inr, ◌⊎◌, ℕ, ◌≡◌, ◌≢◌, ◌↔◌, refl, true, false, List, [], ◌∷◌, Option, none,
  some, CString, arith, All, Bool-cases, ap,
}
use netopeer.Common.StringLaws.{str_eq_iff}
use netopeer.Sysrepo.{sr_ok, sr_err_inval_arg, is_ok}
use netopeer.Commit.Types.{Timer, Ncc, World}
use netopeer.Commit.Timer.{disarm}
use netopeer.Commit.Rollback.{commit_confirmed}
use netopeer.Commit.Rpc.{
  Input, mismatch, copy_config, clear_given, confirm, rpc_commit_cb, rpc_cancel_commit_cb,
}

-- The test of the two persist-ids is their equality.
pub mismatch_iff : (p id : Option CString) → (mismatch p id ≡ false) ↔ (p ≡ id)
mismatch_iff none none = ground arith
mismatch_iff none (some x) = ground arith
mismatch_iff (some x) none = ground arith
mismatch_iff (some x) (some y) = ground (arith, str_eq_iff x y)

pub mismatch_of_ne : (p id : Option CString) → p ≢ id → mismatch p id ≡ true
mismatch_of_ne p id n = elim (Bool-cases (mismatch p id)) [
  | inl e ↦ e
  | inr e ↦ absurd (n ((mismatch_iff p id).0 e))
]

-- A commit without "confirmed", or a cancel-commit, whose persist-id is not the one that is pending, also
-- where one of them is missing, is refused, and nothing changes, where the RPC is not ignored and the
-- user session is found.
pub rpc_refuses :
    (w : World) (i : Input) (s : Ncc)
    → i.ignored ≡ false
    → i.user_sess ≡ sr_ok
    → i.confirmed ≡ false
    → s.persist ≢ i.persist_id
    → (rpc_commit_cb w i s ≡ (s, sr_err_inval_arg))
      × (rpc_cancel_commit_cb w i s ≡ (s, sr_err_inval_arg))
unfolding rpc_commit_cb rpc_cancel_commit_cb
rpc_refuses w i s g u c n =
    let m = mismatch_of_ne s.persist i.persist_id n in ground (arith, g, u, c, m)

disarm-gone : (id : ℕ) (ts : List Timer) → All (λ t. t.id ≢ id) (disarm id ts)
unfolding disarm
disarm-gone id [] = tt
disarm-gone id (t ∷ ts) = ground (arith, disarm-gone id ts)

-- commit_ctx holds no persist-id and no timer, and the timer that it held before is not armed.
abbrev pub IsConfirmed : Ncc → Ncc → Type 0
IsConfirmed s t =
    (t.persist ≡ none) × (t.timer ≡ 0) × ((s.timer ≡ 0) ⊎ All (λ x. x.id ≢ s.timer) t.armed)

clear_given-persist :
    (id : Option CString) (s : Ncc)
    → s.persist ≡ id
    → clear_given id s ≡ record s { persist = none }
clear_given-persist none s e = ap (λ p. record s { persist = p }) e
clear_given-persist (some p) s e = refl

confirm-IsConfirmed :
    (w : World) (id : Option CString) (s : Ncc)
    → s.persist ≡ id
    → IsConfirmed s (confirm w id s) × ((confirm w id s).candidate ≡ s.candidate)
unfolding confirm commit_confirmed
confirm-IsConfirmed w id s e =
    rw (clear_given-persist id s e, confirm)
      (elim (Bool-cases (s.timer == 0)) [
        | inl z ↦ rw z ((refl, (==_iff s.timer 0).0 z, inl ((==_iff s.timer 0).0 z)), refl)
        | inr z ↦ rw z ((refl, refl, inr (disarm-gone s.timer s.armed)), refl)
      ])

copy_config_ok :
    (w : World) (s : Ncc)
    → (copy_config w s).1 ≡ sr_ok
    → (copy_config w s).0 ≡ record s { running = s.candidate }
copy_config_ok w s h = ground (arith, h)

-- After a commit without "confirmed" that is not ignored and is answered with success, running is what
-- candidate was, commit_ctx holds no persist-id and no timer, and no timer with the ID that it held is
-- armed. Of timers that it did not hold any more, and of the files, nothing is said.
pub rpc_commit_cb_confirms :
    (w : World) (i : Input) (s : Ncc)
    → i.ignored ≡ false
    → i.confirmed ≡ false
    → (rpc_commit_cb w i s).1 ≡ sr_ok
    → let t = (rpc_commit_cb w i s).0 in (t.running ≡ s.candidate) × IsConfirmed s t
unfolding rpc_commit_cb
rpc_commit_cb_confirms w i s g c h = elim (Bool-cases (is_ok i.user_sess)) [
  | inr u ↦ let e : i.user_sess ≡ sr_ok = rw (g, u, rpc_commit_cb) at h in cc (rw e at u)
  | inl u ↦ elim (Bool-cases (mismatch s.persist i.persist_id)) [
    | inl m ↦ cc (rw (g, c, u, m, rpc_commit_cb) at h)
    | inr m ↦
        let done =
          confirm-IsConfirmed w i.persist_id s ((mismatch_iff s.persist i.persist_id).0 m) in
        let copied =
          copy_config_ok w (confirm w i.persist_id s) (rw (g, c, u, m, rpc_commit_cb) at h) in
        rw (g, c, u, m, rpc_commit_cb) (rw copied (done.1, done.0))
  ]
]

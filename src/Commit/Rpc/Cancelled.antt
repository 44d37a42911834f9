-- ===== src/Commit/Rpc/Cancelled.antt =====
-- What a cancel-commit leaves pending: src/netconf_confirmed_commit.c.
use netopeer.Common.{◌≡◌, refl, false, none, some, CString, sym, ◌∙◌}
use netopeer.Sysrepo.{sr_ok, sr_err_inval_arg}
use netopeer.Commit.Types.{Ncc, World}
use netopeer.Commit.Rollback.{commit_cancel}
use netopeer.Commit.Rollback.Kept.{commit_cancel-persist}
use netopeer.Commit.Rpc.{Input, rpc_commit_cb, rpc_cancel_commit_cb}
use netopeer.Commit.Rpc.Confirms.{mismatch_iff, rpc_refuses}

-- A cancel-commit with the persist-id that is pending is answered with success and leaves that
-- persist-id pending, so that a later commit without one is refused, and nothing changes by it.
cancel_then_commit :
    (v w : World) (i j : Input) (s : Ncc) (p : CString)
    → i.ignored ≡ false
    → s.persist ≡ some p
    → i.persist_id ≡ some p
    → j.ignored ≡ false
    → j.user_sess ≡ sr_ok
    → j.confirmed ≡ false
    → j.persist_id ≡ none
    → let t = (rpc_cancel_commit_cb v i s).0 in
      ((rpc_cancel_commit_cb v i s).1 ≡ sr_ok) × (rpc_commit_cb w j t ≡ (t, sr_err_inval_arg))
unfolding rpc_cancel_commit_cb
cancel_then_commit v w i j s p g e f h u c n =
    let m = (mismatch_iff s.persist i.persist_id).1 (e ∙ sym f) in
    rw (g, m, rpc_cancel_commit_cb)
      (
        refl,
        (rpc_refuses w j (commit_cancel v s) h u c
            (λ q. never (sym (commit_cancel-persist v s ∙ e) ∙ q ∙ n))).0,
      )
  where
    never : some p ≡ none → ⊥
    never q = cc

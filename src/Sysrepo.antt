-- ===== src/Sysrepo.antt =====
-- What the change callbacks of src/ take from sysrepo: a list of changes with the codes that the
-- calls around it give, and the loop over it.
use netopeer.Common.{arith, ℕ, List, [], ◌∷◌, if◌then◌else◌, Bool, true, false}

-- sr_change_oper_t
pub data ChangeOp : Type 0 where
  created modified deleted moved : ChangeOp

abbrev pub is_deleted : ChangeOp → Bool
is_deleted deleted = true
is_deleted _ = false

-- SR_ERR_* codes; `assertion` is no code, but a failed assertion or a read of a NULL pointer.
pub data Code : Type 0 where
  sr_ok sr_err_internal sr_err_not_found sr_err_sys sr_err_ly sr_err_inval_arg assertion : Code
  sr_err_other : ℕ → Code

-- sr_get_changes_iter gives `started`; sr_get_change_tree_next then gives the changes, and in the
-- end `ended`.
pub record Changes (A : Type 0) : Type 0 where
  pub started : Code
  pub changes : List A
  pub ended : Code

-- What a callback does with one change: it goes on, or it returns.
pub data Step (S : Type 0) : Type 0 where
  go : S → Step S
  stop : S → Code → Step S

abbrev pub is_ok : Code → Bool
is_ok sr_ok = true
is_ok _ = false

-- The code behind the loop: SR_ERR_NOT_FOUND says that there are no more changes.
abbrev pub loop_code : Code → Code
loop_code sr_err_not_found = sr_ok
loop_code c = c

-- The state after a step, whether the callback goes on or not.
abbrev pub state_of : {S : Type 0} → Step S → S
state_of (go t) = t
state_of (stop t code) = t

module _ {S A : Type 0} (step : S → A → Step S) where
  unfoldable pub run_changes : S → List A → Code → S × Code
  run_changes s [] ended = (s, loop_code ended)
  run_changes s (c ∷ cs) ended = elim (step s c) [
    | go t ↦ run_changes t cs ended
    | stop t code ↦ (t, code)
  ]

  unfoldable pub callback : S → Changes A → S × Code
  unfolding run_changes
  callback s cs = if is_ok cs.started then run_changes s cs.changes cs.ended else (s, cs.started)

  run_changes_inv :
      (P : S → Type 0)
      → ((s : S) (c : A) → P s → P (state_of (step s c)))
      → (s : S) (cs : List A) (ended : Code) → P s
      → P (run_changes s cs ended).0
  unfolding run_changes
  run_changes_inv P keep s [] ended h = h
  run_changes_inv P keep s (c ∷ cs) ended h =
      by_step (step s c) (keep s c h) (λ t. run_changes_inv P keep t cs ended)
    where
      by_step :
          (r : Step S)
          → P (state_of r)
          → ((t : S) → P t → P (run_changes t cs ended).0)
          → P
              (elim r as (λ _. S × Code) [
                | go t ↦ run_changes t cs ended
                | stop t code ↦ (t, code)
              ]).0
      by_step (go t) k rest = rest t k
      by_step (stop t code) k rest = k

  -- What each step keeps, a callback keeps, also where it fails midway.
  pub callback_inv :
      (P : S → Type 0)
      → ((s : S) (c : A) → P s → P (state_of (step s c)))
      → (s : S) (cs : Changes A) → P s
      → P (callback s cs).0
  unfolding callback
  callback_inv P keep s cs h = ground (arith, run_changes_inv P keep s cs.changes cs.ended h)

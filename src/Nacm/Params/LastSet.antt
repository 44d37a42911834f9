-- ===== src/Nacm/Params/LastSet.antt =====
-- After ncac_nacm_params_cb each parameter has the value that was set last.
use netopeer.Common.{
  ◌⊎◌, ◌≢◌, ◌∙◌, ap, ◌≡◌, refl, subst, sym, inl, inr, Bool, true, false, ◌&&◌, List, [], ◌∷◌,
  CString, lit, str_eq, arith, Bool-cases, if◌then◌else◌,
}
use netopeer.Common.StringLaws.{str_eq_iff}
use netopeer.Nacm.Types.{Nacm}
use netopeer.Sysrepo.{
  Code, sr_ok, sr_err_not_found, Changes, is_ok, loop_code, callback, run_changes,
}
use netopeer.Nacm.Params.{ParamChange, sets, denies, set_named, param_step, nacm_params_cb}

pub data Param : Type 0 where
  enable_nacm read_default write_default exec_default external_groups : Param

-- The name of the leaf, the field that holds it, and the value that a change gives it.
abbrev pub param_name : Param → CString
param_name enable_nacm = lit "enable-nacm"
param_name read_default = lit "read-default"
param_name write_default = lit "write-default"
param_name exec_default = lit "exec-default"
param_name external_groups = lit "enable-external-groups"

abbrev pub param_field : Param → Nacm → Bool
param_field enable_nacm n = n.enabled
param_field read_default n = n.default_read_deny
param_field write_default n = n.default_write_deny
param_field exec_default n = n.default_exec_deny
param_field external_groups n = n.enable_external_groups

abbrev pub param_value : Param → Bool → Bool → Bool
param_value enable_nacm boolean deny = boolean
param_value external_groups boolean deny = boolean
param_value _ boolean deny = deny

-- The last value that the changes set, or the old one.
abbrev pub last_set : Param → List ParamChange → Bool → Bool
last_set p [] old = old
last_set p (c ∷ cs) old = last_set p cs (
    if sets c.op && str_eq c.name (param_name p)
    then param_value p c.boolean (denies c.value)
    else old)

set_named_self :
    (p : Param) (set boolean deny : Bool) (n : Nacm)
    → param_field p (set_named (param_name p) set boolean deny n)
      ≡ (if set then param_value p boolean deny else param_field p n)
unfolding set_named str_eq lit
set_named_self enable_nacm set boolean deny n = ground arith
set_named_self read_default set boolean deny n = ground arith
set_named_self write_default set boolean deny n = ground arith
set_named_self exec_default set boolean deny n = ground arith
set_named_self external_groups set boolean deny n = ground arith

set_named-other :
    (p : Param) (name : CString) (set boolean deny : Bool) (n : Nacm)
    → str_eq name (param_name p) ≡ false
    → param_field p (set_named name set boolean deny n) ≡ param_field p n
unfolding set_named
set_named-other enable_nacm name set boolean deny n h = ground arith
set_named-other read_default name set boolean deny n h = ground arith
set_named-other write_default name set boolean deny n h = ground arith
set_named-other exec_default name set boolean deny n h = ground arith
set_named-other external_groups name set boolean deny n h = ground arith

set_named-field :
    (p : Param) (name : CString) (set boolean deny : Bool) (n : Nacm)
    → param_field p (set_named name set boolean deny n)
      ≡ (if set && str_eq name (param_name p) then param_value p boolean deny else param_field p n)
set_named-field p name set boolean deny n = elim (Bool-cases (str_eq name (param_name p))) [
  | inr e ↦ ground (arith, e, set_named-other p name set boolean deny n e)
  | inl e ↦ by_name name ((str_eq_iff name (param_name p)).0 e) e
]
  where
    by_name :
        (x : CString)
        → x ≡ param_name p
        → str_eq x (param_name p) ≡ true
        → param_field p (set_named x set boolean deny n)
          ≡ (if set && str_eq x (param_name p) then param_value p boolean deny else param_field p n)
    by_name x e t =
        let s = set_named_self p set boolean deny n in
        let s' =
          subst
            (λ y.
              param_field p (set_named y set boolean deny n)
              ≡ (if set then param_value p boolean deny else param_field p n))
            (sym e) s in
        rw t (ground (arith, s'))

run-last_set :
    (p : Param) (n : Nacm) (cs : List ParamChange) (ended : Code)
    → param_field p (run_changes param_step n cs ended).0 ≡ last_set p cs (param_field p n)
unfolding run_changes param_step
run-last_set p n [] ended = refl
run-last_set p n (c ∷ cs) ended =
    let n' = set_named c.name (sets c.op) c.boolean (denies c.value) n in
    rw (← set_named-field p c.name (sets c.op) c.boolean (denies c.value) n)
      (run-last_set p n' cs ended)

-- Where the iteration starts, each parameter has the value that was set last, and its old one if
-- none was, and the code is SR_ERR_OK if the iteration ends with SR_ERR_NOT_FOUND, and else the code it
-- ends with; where it does not start, nothing changes and its code is returned.
pub nacm_params_cb-last_set :
    (p : Param) (n : Nacm) (cs : Changes ParamChange)
    → let r = nacm_params_cb n cs in
      ((cs.started ≡ sr_ok)
        × (param_field p r.0 ≡ last_set p cs.changes (param_field p n))
        × (cs.ended ≡ sr_err_not_found → r.1 ≡ sr_ok)
        × (cs.ended ≢ sr_err_not_found → r.1 ≡ cs.ended))
      ⊎ ((cs.started ≢ sr_ok) × (r.0 ≡ n) × (r.1 ≡ cs.started))
unfolding nacm_params_cb callback
nacm_params_cb-last_set p n cs = elim (Bool-cases (is_ok cs.started)) [
  | inr e ↦ rw (nacm_params_cb, callback, e) (inr (λ k. differ k e, refl, refl))
  | inl e ↦
      rw (nacm_params_cb, callback, e)
        (inl (
          started e,
          run-last_set p n cs.changes cs.ended,
          λ k. codes n cs.changes ∙ ap loop_code k,
          λ k. codes n cs.changes ∙ other cs.ended k,
        ))
]
  where
    codes :
        (m : Nacm) (ds : List ParamChange)
        → (run_changes param_step m ds cs.ended).1 ≡ loop_code cs.ended
    codes m [] = refl
    codes m (d ∷ ds) = codes (set_named d.name (sets d.op) d.boolean (denies d.value) m) ds

    started : is_ok cs.started ≡ true → cs.started ≡ sr_ok
    started e = ground (arith, e)

    differ : cs.started ≡ sr_ok → is_ok cs.started ≡ false → ⊥
    differ k e = cc (rw k at e)

    other : (c : Code) → c ≢ sr_err_not_found → loop_code c ≡ c
    other c k = ground (arith, k)

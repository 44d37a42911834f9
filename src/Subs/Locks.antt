-- ===== src/Subs/Locks.antt =====
-- The read-write lock of the subscriptions: sub_ntf_find_lock and sub_ntf_unlock of
-- src/netconf_subscribed_notifications.c.
use netopeer.Common.{
  ◌≢◌, refl, ==_iff, ◌≡◌, ◌⊎◌, inl, inr, ℕ, zero, suc, ◌==◌, ◌||◌, not, Bool, true, false, Option,
  none, some, ◌>>=◌, arith, Bool-cases, Option-cases, get_elem?, if◌then◌else◌,
}
use netopeer.Subs.{Info}
use netopeer.Subs.Table.{sub_ntf_find}

-- The lock with its readers or its writer.
pub data Lock : Type 0 where
  readers : ℕ → Lock
  writer : Lock

-- `none` where the caller waits.
abbrev pub acquire : Bool → Lock → Option Lock
acquire write writer = none
acquire true (readers zero) = some writer
acquire true (readers (suc n)) = none
acquire false (readers n) = some (readers (suc n))

-- `none` where nobody holds it.
abbrev pub release : Lock → Option Lock
release writer = some (readers zero)
release (readers zero) = none
release (readers (suc n)) = some (readers n)

-- !sub_id || (info.sub_id_lock != sub_id)
abbrev pub must_lock : ℕ → Info → Bool
must_lock sub_id t = sub_id == 0 || not (t.sub_id_lock == sub_id)

abbrev pub is_usable : Info → ℕ → Bool
is_usable t i = elim (get_elem? t.subs i) [ none ↦ false | some s ↦ not s.terminating ]

abbrev pub found_usable : Info → Option ℕ → Bool
found_usable t none = false
found_usable t (some i) = is_usable t i

unfoldable lock_if : Bool → Bool → Lock → Option Lock
lock_if needed write l = if needed then acquire write l else some l

unfoldable unlock_if : Bool → Lock → Option Lock
unlock_if needed l = if needed then release l else some l

unfoldable pub sub_ntf_unlock : ℕ → Info → Lock → Option Lock
unfolding unlock_if
sub_ntf_unlock sub_id t l = unlock_if (must_lock sub_id t) l

-- The subscription to use, and the lock after the call.
unfoldable pub sub_ntf_find_lock : ℕ → ℕ → Bool → Info → Lock → Option (Option ℕ × Lock)
unfolding lock_if unlock_if
sub_ntf_find_lock nc_sub_id sub_id write t l = do
  held ← lock_if (must_lock sub_id t) write l
  let found = sub_ntf_find nc_sub_id 0 t.subs
  if found_usable t found
      then some (found, held)
      else (do back ← unlock_if (must_lock sub_id t) held; some (none, back))

release-acquire : (write : Bool) (l m : Lock) → acquire write l ≡ some m → release m ≡ some l
release-acquire write writer m h = cc
release-acquire true (readers zero) m h = ground (arith, h)
release-acquire true (readers (suc n)) m h = cc
release-acquire false (readers n) m h = ground (arith, h)

-- The caller has to take the lock itself; otherwise it is a callback that was passed it.
abbrev pub MustLock : ℕ → Info → Type 0
MustLock sub_id t = (sub_id ≡ 0) ⊎ (t.sub_id_lock ≢ sub_id)

abbrev pub IsPassed : ℕ → Info → Type 0
IsPassed sub_id t = (sub_id ≢ 0) × (t.sub_id_lock ≡ sub_id)

must_lock-cases :
    (sub_id : ℕ) (t : Info)
    → ((must_lock sub_id t ≡ true) × MustLock sub_id t)
      ⊎ ((must_lock sub_id t ≡ false) × IsPassed sub_id t)
must_lock-cases sub_id t = elim (Bool-cases (sub_id == 0)) [
  | inl e ↦ inl (rw e refl, inl ((==_iff sub_id 0).0 e))
  | inr e ↦ elim (Bool-cases (t.sub_id_lock == sub_id)) [
    | inl k ↦ inr (rw (e, k) refl, ((λ z. ground (arith, e, z)), (==_iff t.sub_id_lock sub_id).0 k))
    | inr k ↦ inl (rw (e, k) refl, inr (λ z. ground (arith, k, z)))
  ]
]

-- The subscription, if it is found and usable.
abbrev pub usable : ℕ → Info → Option ℕ
usable nc_sub_id t =
    if found_usable t (sub_ntf_find nc_sub_id 0 t.subs)
    then sub_ntf_find nc_sub_id 0 t.subs
    else none

-- A callback that was passed the lock, by its ID, leaves it alone, also when it unlocks. Any other caller
-- waits where the lock cannot be taken; else it gets it, and then the lock is held for it
-- if the subscription is found and usable, and given back at once if it is not. Its unlock gives the lock
-- back as it was.
pub find_lock-unlock :
    (nc_sub_id sub_id : ℕ) (write : Bool) (t : Info) (l : Lock)
    → (IsPassed sub_id t
        × (sub_ntf_find_lock nc_sub_id sub_id write t l ≡ some (usable nc_sub_id t, l))
        × (sub_ntf_unlock sub_id t l ≡ some l))
      ⊎ (MustLock sub_id t
          × (acquire write l ≡ none)
          × (sub_ntf_find_lock nc_sub_id sub_id write t l ≡ none))
      ⊎ (MustLock sub_id t
          × (m : Lock) × (acquire write l ≡ some m)
          × (sub_ntf_find_lock nc_sub_id sub_id write t l
              ≡ some (
                usable nc_sub_id t,
                if found_usable t (sub_ntf_find nc_sub_id 0 t.subs) then m else l,
              ))
          × (sub_ntf_unlock sub_id t m ≡ some l))
unfolding sub_ntf_find_lock sub_ntf_unlock lock_if unlock_if
find_lock-unlock nc_sub_id sub_id write t l =
    let u = found_usable t (sub_ntf_find nc_sub_id 0 t.subs) in
    elim (must_lock-cases sub_id t) [
      | inr (b, p) ↦ inl (p, ground (arith, b), ground (arith, b))
      | inl (b, p) ↦ elim (Option-cases (acquire write l)) [
        | inl e ↦ inr (inl (p, e, rw (sub_ntf_find_lock, b, e)))
        | inr (m, e) ↦
            let back = release-acquire write l m e in
            inr (inr (p, m, e, held b e back, rw (sub_ntf_unlock, b, back)))
      ]
    ]
  where
    held :
        {m : Lock}
        → must_lock sub_id t ≡ true
        → acquire write l ≡ some m
        → release m ≡ some l
        → sub_ntf_find_lock nc_sub_id sub_id write t l
          ≡ some (
            usable nc_sub_id t,
            if found_usable t (sub_ntf_find nc_sub_id 0 t.subs) then m else l,
          )
    held b e back = elim (Bool-cases (found_usable t (sub_ntf_find nc_sub_id 0 t.subs))) [
      | inl v ↦ rw (sub_ntf_find_lock, b, e, v)
      | inr v ↦ rw (sub_ntf_find_lock, b, e, v, back)
    ]

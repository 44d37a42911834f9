-- ===== src/YangPush.antt =====
-- Yang-push subscriptions to changes, of src/yang_push.h and src/yang_push.c: operations, edits and the
-- notification that collects them.
pub mod Names
pub mod Change
pub mod Edits
pub mod Collected
pub mod Subscribe
pub mod Subscribed
pub mod Ready
pub mod Timers
use netopeer.Common.{ℕ, Bool, true, false, List, [], ◌∷◌, Option, CString}
use netopeer.Time.{Timespec}

-- enum yang_push_op
pub data Op : Type 0 where
  op_create op_delete op_insert op_move op_replace : Op

-- One edit of the YANG patch, without its value; `first` is the leaf "where", if there is one.
pub record Edit : Type 0 where
  pub edit_id : ℕ
  pub operation : Op
  pub target : CString
  pub point : Option CString
  pub first : Option Bool

-- ly_change_ntf
pub record ChangeNtf : Type 0 where
  pub sub_id : ℕ
  pub patch_id : ℕ
  pub edits : List Edit

-- struct yang_push_data of an on-change subscription; the timer is the time that it is armed for.
pub record OnChange : Type 0 where
  pub dampening_period_ms : ℕ
  pub excluded_change : Op → Bool
  pub ly_change_ntf : Option ChangeNtf
  pub patch_id : ℕ
  pub edit_id : ℕ
  pub last_notif : Timespec
  pub damp_timer : Option Timespec
  pub excluded_op_count : ℕ

-- What is read of a changed node: lyd_path, whether its schema is user-ordered, a leaf-list or a list;
-- and the previous value or the previous list's predicates that sysrepo gives, empty for the first.
pub record ChangedNode : Type 0 where
  pub path : CString
  pub is_userordered : Bool
  pub is_leaflist : Bool
  pub is_list : Bool
  pub prev : CString

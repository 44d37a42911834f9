-- ===== src/Tests/YangPush.antt =====
-- YANG push.
use netopeer.Common.{
  Bool, ◌||◌, ◌++◌, inl, inr, Bool-cases, map, not, ◌==◌, ◌≡◌, refl, ◌<◌, ◌+◌, ◌*◌, ℕ, true, false,
  ltb, List, [], ◌∷◌, none, some, CString, lit, str_eq, strcmp, if◌then◌else◌, arith,
}
use netopeer.Sysrepo.{sr_ok, sr_err_ly, ChangeOp, created, modified, deleted}
use netopeer.Time.{Timespec, np_addtimespec}
use netopeer.Time.Laws.{nsecs}
use netopeer.YangPush.{op_create, ChangeNtf, OnChange, ChangedNode}
use netopeer.YangPush.Change.{Other, new_edit, change_ready, change_loop}
use netopeer.YangPush.Collected.{pending_edits, op_at, last_op, Kept, change_loop-last_op}
use netopeer.Subs.Subscribe.{Answers}
use netopeer.Subs.Subscribed.{Complete}
use netopeer.YangPush.Subscribe.{SchemaNode, Context, contains, yang_push_sr_subscribe}
use netopeer.YangPush.Subscribed.{Once, wanted, sr_subscribe-Complete}
use netopeer.YangPush.Ready.{change_ready-eq}
use netopeer.YangPush.Timers.{first_update, modify_dampening, first_update_past}

abbrev node_of : CString → ChangedNode
node_of path = record {
  path = path;
  is_userordered = false;
  is_leaflist = false;
  is_list = false;
  prev = [];
}

abbrev leaf : ChangedNode
leaf = node_of (lit "/m:a/b")

-- A leaf was created before, then another.
abbrev pending : ChangeNtf
pending = record {
  sub_id = 2;
  patch_id = 1;
  edits = new_edit 1 op_create leaf ∷ new_edit 2 op_create (node_of (lit "/m:a/c")) ∷ [];
}

-- At most one notification in ten seconds; the last was sent at 100 seconds.
abbrev push : OnChange
push = record {
  dampening_period_ms = 10000;
  excluded_change = λ op. false;
  ly_change_ntf = some pending;
  patch_id = 2;
  edit_id = 3;
  last_notif = record { tv_sec = 100; tv_nsec = 0 };
  damp_timer = none;
  excluded_op_count = 0;
}

change_ready-eq_example :
    (u : Timespec) × (nsecs u ≡ 100000000000 + 10000 * 1000000)
    × (change_ready (record { tv_sec = 103; tv_nsec = 5 }) push ≡ (
        if ltb (nsecs u) (103000000005 + 1000000)
        then some (true, push)
        else some (false, record push { damp_timer = some u })))
change_ready-eq_example =
    change_ready-eq (record { tv_sec = 103; tv_nsec = 5 }) push (λ e. absurd (omega (arith, e)))
      refl refl (omega arith) (omega arith)

abbrev now : Timespec
now = record { tv_sec = 100; tv_nsec = 500 }

first_update_past_example :
    (u : Timespec) × (k r late : ℕ) × (first_update now (record { tv_sec = 77; tv_nsec = 0 }) 10000
      ≡ some u)
    × (r < 10000)
    × (late < 1000000)
    × (100000000500 ≡ 77000000000 + (10000 * k + r) * 1000000 + late)
    × (nsecs u ≡ 77000000000 + (10000 * k + 2 * r) * 1000000 + late)
first_update_past_example =
    first_update_past now (record { tv_sec = 77; tv_nsec = 0 }) 10000 refl refl
      (λ e. absurd (omega (arith, e))) (omega arith)

-- A shorter period moves the armed timer.
shorter :
    modify_dampening 500 (record push { damp_timer = some (record { tv_sec = 110; tv_nsec = 0 }) })
    ≡ some (record push {
      dampening_period_ms = 5000;
      damp_timer = some (record { tv_sec = 105; tv_nsec = 0 });
    })
unfolding modify_dampening np_addtimespec
shorter = refl

-- No other expression is read.
abbrev unread : Other
unread path = none

abbrev changes : List (ChangeOp × ChangedNode)
changes = (modified, leaf) ∷ (created, node_of (lit "/m:d")) ∷ (deleted, leaf) ∷ []

change_loop-last_op_example :
    (e : OnChange) × (change_loop unread 2 changes push ≡ (sr_ok, e))
    × Kept push e
    × ((q : CString)
        → op_at q (pending_edits e)
          ≡ last_op q push.excluded_change changes (op_at q pending.edits))
unfolding str_eq strcmp lit
change_loop-last_op_example =
    change_loop-last_op unread 2 changes push (refl, (refl, (refl, tt))) ((refl, tt), (tt, tt))

abbrev node_at : ℕ → Bool → SchemaNode
node_at m plain = record { module_at = m; plain = plain; config_w = true; config_r = false }

-- Module 3 is only imported.
abbrev context : Context
context = record {
  modules = 1 ∷ 2 ∷ 3 ∷ [];
  implemented = λ m. not (m == 3);
  name = λ m. if m == 1 then lit "a" else lit "b";
  roots = λ m. [];
}

-- sysrepo refuses module b.
abbrev answer : Answers
answer m = if str_eq m (lit "a") then (sr_ok, 11) else (sr_err_ly, 0)

abbrev atoms : List SchemaNode
atoms = node_at 1 true ∷ node_at 3 true ∷ node_at 1 true ∷ node_at 2 false ∷ node_at 2 true ∷ []

abbrev set_add : ℕ → List ℕ → List ℕ
set_add m ks = if contains m ks then ks else ks ++ m ∷ []

contains-append : (m k : ℕ) (ms : List ℕ) → contains m (ms ++ k ∷ []) ≡ (contains m ms || m == k)
contains-append m k [] = ground arith
contains-append m k (x ∷ ms) = ground (arith, contains-append m k ms)

append-Once : (k : ℕ) (ms : List ℕ) → Once ms → contains k ms ≡ false → Once (ms ++ k ∷ [])
append-Once k [] o h = (refl, tt)
append-Once k (x ∷ ms) o h =
    (ground (arith, contains-append x k ms, o.0, h), append-Once k ms o.1 (ground (arith, h)))

set_add-Once : (k : ℕ) (ms : List ℕ) → Once ms → Once (set_add k ms)
set_add-Once k ms o = elim (Bool-cases (contains k ms)) [
  | inl e ↦ rw e o
  | inr e ↦ rw e (append-Once k ms o e)
]

contains-set_add : (m k : ℕ) (ms : List ℕ) → contains m (set_add k ms) ≡ (contains m ms || m == k)
contains-set_add m k ms = ground (arith, contains-append m k ms)

sr_subscribe-Complete_example :
    (mods : List ℕ) × Once mods
    × ((m : ℕ) → contains m mods ≡ wanted context false atoms m)
    × Complete answer
        (map context.name mods)
        []
        (yang_push_sr_subscribe set_add context answer false (some atoms))
sr_subscribe-Complete_example =
    sr_subscribe-Complete set_add contains-set_add set_add-Once context answer false atoms

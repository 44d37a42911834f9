-- ===== src/Tests/Subscriptions.antt =====
-- Subscriptions.
use netopeer.Common.{
  if◌then◌else◌, ◌≡◌, refl, ◌⊎◌, ℕ, true, false, List, [], ◌∷◌, Option, none, some, CString, lit,
  arith,
}
use netopeer.Sysrepo.{Code, sr_ok}
use netopeer.Common.Ints.{◌+ℤ◌, scale}
use netopeer.Time.{Timespec, np_difftimespec}
use netopeer.Subs.{
  Sub, type_sub_ntf, no_filter, CbArg, sub_ntf, replay_completed, Info, Server, message_sent,
  stop_time_modified,
}
use netopeer.Subs.Table.{sub_ntf_find}
use netopeer.Subs.Locks.{
  Lock, readers, writer, acquire, MustLock, IsPassed, usable, found_usable, sub_ntf_find_lock,
  sub_ntf_unlock, find_lock-unlock,
}
use netopeer.Subs.Subscribe.{Answers, ContextModule, stream_modules, sub_ntf_sr_subscribe}
use netopeer.Subs.Subscribed.{Complete, sub_ntf_sr_subscribe-Complete}
use netopeer.Subs.Replay.{replays, replay_completed_once}
use netopeer.Subs.Terminate.{
  sub_ntf_terminate_sub, finish_sub, erase, set_terminating, np2srv_sub_ntf_session_destroy,
}
use netopeer.Subs.Unsubscribed.{terminate_removes}
use netopeer.Subs.Skipped.{session_destroy_skips, finish_sub_race}
use netopeer.Subs.Establish.{EstablishCall, np2srv_rpc_establish_sub_cb}
use netopeer.Subs.Established.{
  Result, WellNumbered, establish_adds_or_leaves, establish-WellNumbered,
}
use netopeer.Subs.Modify.{ModifyCall, set_filter, np2srv_rpc_modify_sub_cb}
use netopeer.Subs.Modified.{told, modify_without_stop}
use netopeer.Subs.Rpcs.{sub_ntf_send_notif_modified}

abbrev server : Server
server = record {
  denied = λ s n. false;
  send = λ s n. message_sent;
  running = λ s. false;
  unsubscribe = λ id. (sr_ok, true);
  session = λ s. sr_ok;
  modify_xpath = λ id x. sr_ok;
  modify_stop_time = λ id x. sr_ok;
  sub_info = λ id. (sr_ok, some (b'/' ∷ []), record { tv_sec = 9; tv_nsec = 0 });
  filtered_out = λ id. (sr_ok, 0);
}

abbrev unset : Timespec
unset = record { tv_sec = 0; tv_nsec = 0 }

abbrev arg_of : ℕ → ℕ → CbArg
arg_of ncs id = record { ncs = ncs; nc_sub_id = id; sr_sub_count = 2; replay_complete_count = 0 }

-- A subscription of session 7 with two sysrepo subscriptions.
abbrev sub_of : ℕ → Sub
sub_of id = record {
  nc_id = 7;
  nc_sub_id = id;
  sub_ids = 11 ∷ 12 ∷ [];
  term_reason = [];
  stop_time = unset;
  terminating = false;
  sent_count = 0;
  denied_count = 0;
  type_of = type_sub_ntf;
  sub_data =
      sub_ntf (record {
        filter = no_filter;
        stream = [];
        replay_start_time = unset;
        cb_arg = arg_of 7 id;
      });
}

abbrev info_of : List Sub → Info
info_of subs = record { sub_id_lock = 0; subs = subs; new_nc_sub_id = 3; calls = [] }

abbrev two_subs : Info
two_subs = info_of (sub_of 1 ∷ sub_of 2 ∷ [])

abbrev alone : Info → Info
alone t = t

program : Unit {0}
unfolding sub_ntf_find sub_ntf_find_lock sub_ntf_unlock np_difftimespec ◌+ℤ◌ scale
program = tt

find_lock-unlock_example :
    (IsPassed 0 two_subs
      × (sub_ntf_find_lock 2 0 true two_subs (readers 0) ≡ some (usable 2 two_subs, readers 0))
      × (sub_ntf_unlock 0 two_subs (readers 0) ≡ some (readers 0)))
    ⊎ (MustLock 0 two_subs
        × (acquire true (readers 0) ≡ none)
        × (sub_ntf_find_lock 2 0 true two_subs (readers 0) ≡ none))
    ⊎ (MustLock 0 two_subs
        × (m : Lock) × (acquire true (readers 0) ≡ some m)
        × (sub_ntf_find_lock 2 0 true two_subs (readers 0)
            ≡ some (
              usable 2 two_subs,
              if found_usable two_subs (sub_ntf_find 2 0 two_subs.subs) then m else readers 0,
            ))
        × (sub_ntf_unlock 0 two_subs m ≡ some (readers 0)))
find_lock-unlock_example = find_lock-unlock 2 0 true two_subs (readers 0)

-- The lock is held for writing, and given back.
held : sub_ntf_find_lock 2 0 true two_subs (readers 0) ≡ some (some 1, writer)
unfolding program
held = refl

abbrev modules : List ContextModule
modules =
    record { name = b'a' ∷ []; implemented = true; has_notif = true }
    ∷ record { name = b'b' ∷ []; implemented = true; has_notif = false }
    ∷ []

abbrev answers : Answers
answers m = (sr_ok, 11)

sub_ntf_sr_subscribe-Complete_example :
    Complete answers
      (stream_modules modules (lit "NETCONF"))
      []
      (sub_ntf_sr_subscribe modules answers (lit "NETCONF") (arg_of 7 1)).0
sub_ntf_sr_subscribe-Complete_example =
    sub_ntf_sr_subscribe-Complete modules answers (lit "NETCONF") (arg_of 7 1)

replay_completed_once_example :
    (replays 1 (arg_of 7 5) ≡ []) × (replays 2 (arg_of 7 5) ≡ replay_completed 5 ∷ [])
replay_completed_once_example = replay_completed_once (arg_of 7 5) 1 refl refl

terminate_removes_example :
    (u : Info) × (sub_ntf_terminate_sub server alone 1 7 two_subs ≡ some (sr_ok, u))
    × (u.subs ≡ sub_of 1 ∷ [])
    × (u.sub_id_lock ≡ 0)
    × (u.new_nc_sub_id ≡ 3)
terminate_removes_example =
    terminate_removes server alone (sub_of 1 ∷ []) (sub_of 2) [] (arg_of 7 2) 11 (12 ∷ []) 7
      two_subs (λ u. refl) refl (refl, tt) (refl, refl, refl, refl, refl) refl (refl, (refl, tt))

session_destroy_skips_example :
    (u : Info) × (np2srv_sub_ntf_session_destroy server alone 7 two_subs ≡ some u)
    × (u.subs ≡ sub_of 2 ∷ [])
session_destroy_skips_example =
    session_destroy_skips server alone (sub_of 1) (sub_of 2) (arg_of 7 1) 11 (12 ∷ []) two_subs
      (λ u. refl) refl refl (refl, refl, refl, refl, refl) refl (refl, (refl, tt))

abbrev first_goes : Info → Info
first_goes t = record t { subs = erase 0 t.subs }

abbrev three_subs : Info
three_subs = info_of (sub_of 0 ∷ sub_of 1 ∷ sub_of 2 ∷ [])

finish_sub_race_example :
    (u : Info) × (finish_sub server first_goes 1 7 sr_ok three_subs ≡ some (sr_ok, u))
    × (u.subs ≡ set_terminating (sub_of 1) ∷ [])
finish_sub_race_example =
    finish_sub_race server first_goes (sub_of 0) [] (sub_of 1) (sub_of 2) [] 7 three_subs
      (λ u. refl) refl refl

abbrev call : EstablishCall
call = record {
  ignored = false;
  nc_id = 7;
  stop = unset;
  encoding_ok = true;
  type_of = some type_sub_ntf;
  allocated = true;
  output_ok = true;
  request = record {
    user_sess = sr_ok;
    ncs = 7;
    filter = no_filter;
    xpath = (sr_ok, none);
    stream = b'a' ∷ [];
    start = unset;
    now = record { tv_sec = 5; tv_nsec = 0 };
    modules = modules;
    answers = λ xp m. (sr_ok, 21);
  };
  yang_push = λ s. (sr_ok, s, []);
}

establish_adds_or_leaves_example :
    (r : Code) × (u : Info) × (np2srv_rpc_establish_sub_cb call two_subs ≡ some (r, u))
    × Result call two_subs r u
establish_adds_or_leaves_example = establish_adds_or_leaves call two_subs refl refl (λ s. refl)

establish-WellNumbered_example :
    (r : Code) × (u : Info) × (np2srv_rpc_establish_sub_cb call two_subs ≡ some (r, u))
    × WellNumbered u
establish-WellNumbered_example =
    establish-WellNumbered call two_subs refl refl (λ s. refl) (omega arith)
      (((refl, tt), (tt, tt)), (omega arith, (omega arith, tt)))

abbrev change_of : Option CString → ModifyCall
change_of xp = record {
  ignored = false;
  nc_id = 7;
  nc_sub_id = 2;
  stop = unset;
  user_sess = sr_ok;
  has_datastore = false;
  filter = no_filter;
  xpath = (sr_ok, xp);
  yang_push = λ i t. (sr_ok, t);
}

modify_without_stop_example :
    let kept = record (sub_of 2) { sub_data = set_filter no_filter (sub_of 2).sub_data } in
    (u : Info) × (np2srv_rpc_modify_sub_cb server (change_of (some (b'/' ∷ []))) two_subs
      ≡ some (sub_ntf_send_notif_modified server kept u))
    × (u.subs ≡ sub_of 1 ∷ kept ∷ [])
    × (u.calls ≡ told (λ id. stop_time_modified id none) (11 ∷ 12 ∷ []) [])
unfolding program
modify_without_stop_example =
    modify_without_stop server (change_of (some (b'/' ∷ []))) (sub_of 1 ∷ []) (sub_of 2) [] 11
      (12 ∷ []) (b'/' ∷ []) (record { tv_sec = 9; tv_nsec = 0 }) two_subs refl refl refl refl refl
      refl refl refl refl refl refl (refl, (refl, tt))

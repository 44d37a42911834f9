-- ===== src/Tests/Monitoring.antt =====
-- The statistics of sessions.
use netopeer.Common.{ℕ, ◌≡◌, refl, true, false, [], ◌∷◌, none, some}
use netopeer.Monitoring.{
  Session, Ncm, no_stats, index_of, change_at, count, session_add, session_del,
  session_get_notification, session_notification, up_in_rpcs,
}
use netopeer.Monitoring.Counted.{ChangedFor, count-ChangedFor}

program : Unit {0}
unfolding index_of change_at count session_add session_del session_get_notification
program = tt

abbrev session : ℕ → Session
session n = record { id = n; is_monitored = true; is_closed = false }

-- Two sessions, the second one with three notifications.
abbrev two : Ncm
two = record {
  sessions = session 4 ∷ session 7 ∷ [];
  session_stats = no_stats ∷ record no_stats { out_notifications = 3 } ∷ [];
  in_bad_hellos = 0;
  in_sessions = 2;
  dropped_sessions = 0;
  global_stats = record no_stats { out_notifications = 3 };
}

after_one_more :
    (elim (session_notification (session 7) two) [
      | none ↦ none
      | some n ↦ session_get_notification (session 7) n
    ])
    ≡ some 4
unfolding program
after_one_more = refl

count-ChangedFor_example :
    (m : Ncm) × (count up_in_rpcs (session 7) two ≡ some m)
    × (m ≡ record two {
      session_stats = m.session_stats;
      global_stats = up_in_rpcs two.global_stats;
    })
    × ChangedFor up_in_rpcs 7 two.sessions two.session_stats m.session_stats
unfolding program
count-ChangedFor_example = count-ChangedFor up_in_rpcs (session 7) two 1 refl refl refl

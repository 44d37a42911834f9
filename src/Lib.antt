-- ===== src/Lib.antt =====
-- netopeer2-server is a NETCONF server on top of libnetconf2 (transport), sysrepo (datastores) and
-- libyang (data trees). Its RPC handlers ask the NACM component (src/netconf_acm.c) whether a user may
-- run an operation, see data or change it; NACM keeps its own copy of the ietf-netconf-acm
-- configuration, which sysrepo's change callbacks update. The confirmed-commit component
-- (src/netconf_confirmed_commit.c) copies candidate to running with a backup
-- and a timer that rolls it back. src/netconf_monitoring.c counts what each session does. A client
-- subscribes to notifications of a stream (src/netconf_subscribed_notifications.c and
-- src/subscribed_notifications.c) or to changes of a datastore (src/yang_push.c); both kinds stand in one
-- table under one lock. Their filters become XPath expressions in src/common.c, which also
-- computes with times.
--
-- What is modelled, and where:
-- - Common: the shared names, Boolean tests, lists and C strings. A string is the list of its bytes
--   without the closing NUL; names from libyang's dictionary are compared by pointer in the source and
--   by content here, which is the same for one dictionary.
-- - Sysrepo: a change callback's input, the list of changes with the codes of sr_get_changes_iter and
--   sr_get_change_tree_next, and the loop over it. sysrepo itself is not modelled.
-- - Nacm.Types: src/netconf_acm.h (struct ncac, ncac_group, ncac_rule_list, ncac_rule, enum ncac_access),
--   and what is read of lysc_node and lyd_node. A data tree is a forest of first child and next
--   sibling; the result of lyd_path and the "operation" metadata are fields of a node. `System` holds
--   what the C library answers (getpwnam_r, getgrouplist, getgrgid_r) and NP2SRV_NACM_RECOVERY_UID.
-- - Nacm.Params, Nacm.Groups, Nacm.RuleLists, Nacm.Rules: ncac_nacm_params_cb with ncac_oper_cb,
--   ncac_group_cb, ncac_rule_list_cb and ncac_rule_cb. Nacm.Ordered: the linked lists that keep the
--   user's order, which the last two share.
-- - Nacm.StrArr: ncac_strarr_sort_find, _add and _del. Nacm.GroupMatch: ncac_rule_group_match.
-- - Nacm.Users: ncac_getpwnam, ncac_allowed_tree and ncac_collect_groups.
-- - Nacm.Path: ncac_allowed_path. Nacm.Access: ncac_allowed_node.
-- - Nacm.Operation, Nacm.ReadFilter, Nacm.Diff: ncac_check_operation, ncac_check_data_read_filter and
--   ncac_check_diff with their recursive parts. Nacm.Bypass: who passes all three.
--   Nacm.PushUpdate: ncac_check_yang_push_update_notif, on the edits that stand in the notification.
-- - Nacm.Events: any sequence of callbacks and checks from the initial state.
-- - Commit.Types: commit_ctx with the timers that are armed, the directory NCC_DIR and the datastores;
--   `World` holds what the calls of the system, libyang and sysrepo give while a function runs.
-- - Commit.Directory: ncc_check_dir with its parts. Commit.Files: the names and files of NCC_DIR,
--   get_module_name_from_filename, rename_failed_file and clean_backup_directory. Commit.Backup:
--   backup_module, set_running_backup, create_meta_file and read_meta_file. Commit.Timer:
--   ncc_commit_timeout_schedule and ncc_try_restore. Commit.Rollback: changes_rollback,
--   ncc_commit_confirmed and ncc_commit_cancel. Commit.Rpc: the callbacks of commit and cancel-commit.
-- - Monitoring: src/netconf_monitoring.c, the table of monitored sessions and its counters (ncm_session_add,
--   ncm_session_del, ncm_session_rpc and the other counting functions, find_session_idx).
-- - Filter: the subtree filters of src/common.c. Filter.Buffer is the text that the filter_xpath_buf_
--   functions build, in a buffer of allocated bytes; Filter.Subtree is op_filter_subtree2xpath with its
--   parts; Filter.Union also has op_filter_filter2xpath. Filter.Printed and Filter.Refined compare the text
--   with a printer of the filter that knows of no buffer; Filter.Quoted reads a string literal back as
--   XPath 1.0 has it.
-- - Time: np_difftimespec, np_addtimespec and np_modtimespec, on seconds that are not negative.
-- - Subs: info of src/netconf_subscribed_notifications.c as a table of subscriptions with its lock. Subs.Table:
--   sub_ntf_find, sub_ntf_find_next, the counters and sub_ntf_send_notif. Subs.Locks: sub_ntf_find_lock and
--   sub_ntf_unlock. Subs.Subscribe: sub_ntf_sr_subscribe with the modules of a stream. Subs.Callback
--   and Subs.Replay: np2srv_rpc_establish_sub_ntf_cb on each event that sysrepo gives it. Subs.Terminate:
--   sub_ntf_terminate_sub and np2srv_sub_ntf_session_destroy. Subs.Rpcs: delete-subscription,
--   kill-subscription and the changed filters of the configuration. Subs.Modify: modify-subscription.
--   Subs.Establish: establish-subscription. The other modules have the proofs.
-- - YangPush: on-change subscriptions of src/yang_push.c. YangPush.Change has the edits, dampening and the
--   callbacks of changes and of the timer, YangPush.Timers what the RPCs set the timers to,
--   YangPush.Subscribe the modules that sysrepo is asked for, with np_ly_mod_has_data of src/common.c;
--   YangPush.Names the names of operations and datastores.
-- - Tests: concrete data, and each theorem applied to it.
--
-- How the code corresponds: a function on the static `nacm` takes the state and returns the new one with
-- its result. A pointer that may be NULL is an Option. A failed assertion or a NULL pointer that is read is
-- a value of its own (Code.assertion, Outcome.aborted, none), never an ordinary result. Counters wrap at
-- 2 ^ 32. The checks return NULL for access allowed, which is `none` or `allowed`.
--
-- Bounds and fuel: bsearch(3) of the C library is written out on fuel, the array's length, which is enough since each round halves the
-- range; ncac_strarr_sort_add's loops are recursions on the index and on the room left. The loop over the
-- children of a value in Nacm.PushUpdate has their number as fuel, as each round goes on behind a child or
-- removes one.
--
-- The loops that end subscriptions run on fuel, the length of the table: each round ends it or raises the
-- index, which stays below the length. Everything else is structural recursion on lists and trees.
--
-- Buffers: a position in a string is an offset, and a write behind the allocated bytes has no result
-- (`none`). Memory is always given.
--
-- Subscriptions: a pointer into info.subs is an index, and it is not adapted when the table changes, as a
-- pointer is not. sub_ntf_terminate_sub lets the lock go for a while; what other threads do to
-- the table in that time is the argument `others`, any function. `Server` holds what sysrepo, NACM and
-- libnetconf2 answer, and the calls that change something outside are listed in the state. What
-- src/yang_push.c does with its data in an RPC is an argument of the callbacks in Subs. Of a yang-push
-- subscription the pending notification and the timer are kept with its parameters; the patch and edit
-- numbers do not wrap around, and what NACM leaves of the edits is the argument `readable`. libyang reads
-- the expression with the path of the changed node: where it compares with one literal the edits with that
-- target are selected, and what any other expression gives is the argument `other`.
--
-- Backups: a configuration is the list of its top-level trees, each as it is printed; sr_replace_config gets
-- back after parsing what is in the file, which backup_module prints only the first tree into. The
-- timer that rolls back fires by itself in the source; here it is the function changes_rollback. A
-- timer_settime of 0 arms nothing, as POSIX has it.
--
-- Not modelled: allocation failures; the locks of NACM and of the confirmed commit, because each modelled
-- function holds its lock from its first access to its last, so that runs are sequences (the timer runs
-- changes_rollback without commit_ctx.lock and ncac_check_yang_push_update_notif reads without nacm.lock,
-- which is not modelled); freeing of memory, but for a sibling that is used after it; messages to the client
-- and the log. The index at which the insertion starts is an exact quotient here and a quotient of doubles
-- in C; it only decides where the search begins. A read past the end of a node path is undefined in C;
-- `System.overrun` gives an arbitrary result for it. Of the subscriptions, the libyang trees of
-- operational data and the making of notifications and replies are left out; of src/yang_push.c also
-- its filters. The user sessions and the reading of URLs of src/common.c, src/netconf.c, src/main.c and the
-- client in cli/ are calls of libraries for the most part.
pub mod Common
pub mod Sysrepo
pub mod Time
pub mod Filter
pub mod YangPush
pub mod Subs
pub mod Nacm
pub mod Commit
pub mod Monitoring
mod Tests

-- ===== src/Lib.antt =====
-- The metadata server of Ceph with the Mantle balancer: a model of its states, its heartbeat,
-- its cache objects, its directory fragments, the map of its subtrees, its balancer and its sessions, and
-- the theorems about them.
--
-- The server keeps directory fragments (mds/CDir.cc, mds/CDir.h), whose base class is the cache
-- object of mds/mdstypes.h, tells the monitors that it is alive (mds/Beacon.cc), moves subtrees to
-- other servers (mds/MDBalancer.cc), knows them by a map of their roots (mds/MDCache.cc), follows the map of
-- the servers from state to state (mds/MDS.cc), and keeps the sessions of the clients (mds/Server.cc). A failed assertion of the code is the result `none`. What an
-- operation asks of an object whose class the repository does not hold is an entry in a list of
-- calls or effects.
--
-- Prelude holds the Boolean tests, Option, lists, association lists and integers that the other
-- files share. Time is the interface of the clock's readings (utime_t), with the laws used.
--
-- Beacon models mds/Beacon.cc: `send` is _send, and `handle_mds_beacon`, `is_laggy`, `notify_mdsmap`,
-- `notify_want_state`, `init` and `shutdown` have their names in the code. Beacon/Stamps has the
-- lemmas on the pending stamps, Beacon/Acks the histories of events and their invariant,
-- Beacon/Laggy the recovery from lagginess, Beacon/Health notify_health. The lock is not modelled, as
-- each method holds it from its start to its end.
--
-- CacheObject models class MDSCacheObject of mds/mdstypes.h with MDS_REF_SET defined: get, put, the
-- replicas and the waiters. The loop of is_waiter_for runs on fuel 64, one for each bit of its mask.
-- The proofs are in CacheObject/Pins, CacheObject/Replicas and CacheObject/Waiters.
--
-- Dir models mds/CDir.cc and mds/CDir.h. Dir/Key is dentry_key_t, Dir/Types the state, Dir/Items
-- lookup and the operations that add, link, unlink and remove dentries; an inode is known by its
-- number and by what CDir reads of it. Below Dir/Items are the lemmas on the map (Maps), on the
-- counters (Tallies), and the theorems (Counters, Adding, Linking, Lookup).
--
-- Dir/Freeze models auth pins and freezing: `freeze_dir_now` and `freeze_tree_now` are _freeze_dir and
-- _freeze_tree, `Parent` is what the fragment asks its inode, and the others have their names in the
-- code. auth_unpin and maybe_finish_freeze call each other; the inner unpin leaves no pin and stops
-- there, so fuel 2 is enough. The invariant and its ledger of what the inode was told are in
-- Dir/Freeze/Good, the theorems in Unpinning, Completion, Freezing, Thawing and Nesting. The contexts
-- that are queued or finished are not run: they are entries in the list of calls.
--
-- Dir/Snaps models try_trim_snap_dentry and purge_stale_snap_data; the set of the snapshots is the list of
-- its items in their order. What CInode does when it is marked
-- clean is a parameter there, and any function will do.
--
-- Dir/Versions models pre_dirty, mark_dirty, mark_clean and the start of a commit: `set_dirty` is
-- _mark_dirty and `start_commit` is _commit. The end of a commit is not modelled.
--
-- Inos models the macros of mds/mdstypes.h for the inode numbers of stray directories.
--
-- Stats models frag_info_t and nest_info_t of mds/mdstypes.h, whose counts stay within their 64 bits;
-- `nest_add` and the like are their methods. InodeT models the truncation and the client ranges of
-- inode_t. Balancer/Targets models check_targets of mds/MDBalancer.cc, one definition for each of its
-- loops, and Balancer/Targets/Aging has its theorem; the counts stay within `int`.
--
-- Balancer/Exports models find_exports and Balancer/Rebalance models try_rebalance of the same file,
-- which calls check_targets and find_exports. Balancer/Load is what they do with a `double`, and
-- Balancer/Tree what they read of the fragments below a directory: find_exports runs on fuel, for which
-- the depth of the tree is enough. `by_script` and `send_whole` read the answer of the script of
-- fragment_selector_luahook, which is a parameter; an index out of bounds is `none`, and a script that
-- fails, after which the code reads a buffer that nobody filled, is not modelled. The theorems are in
-- Balancer/Exports/Searching, Balancer/Rebalance/Ends and Balancer/Rebalance/Twice; Scanning, Choosing
-- and Returning have what they need on the loops.
--
-- Balancer/Matching models prep_rebalance: `prepare` is its part before it calls try_rebalance, with
-- mds_load, get_maxim, get_maxex and try_match under their names. The loop over both lists runs on fuel
-- for the lengths of the two. The call that clears the migrator's queue is left out. The theorem on the
-- whole is in Balancer/Matching/Whole; Rescaling and Fairness have what it needs on the loops.
--
-- Balancer/Heartbeats models send_heartbeat and handle_heartbeat, up to the choice between
-- prep_rebalance, the script and the pause, which is a `Decision`; what get_load measures is an
-- argument. Balancer/Heartbeats/Rounds has the theorem on a round of heartbeats.
--
-- Sessions models the states of a client's session in mds/Server.cc: the three requests of
-- handle_client_session, kill_session, journal_close_session, `session_logged` (_session_logged),
-- `force_open` and `finish_force_open` (prepare_ and finish_force_open_sessions), and the bodies of the
-- loops of terminate_sessions and find_idle_sessions, for one session; the log is a queue of entries
-- that are not safe yet. How the session map numbers the states, and what `clear` does to the last
-- sequence number sent, are parameters; a changed state has a greater number. Whether the
-- table of inode numbers has the version that an entry carries, which _session_logged asserts, is the
-- argument `matches`.
-- Sessions/Queue has what the entries rely on, Sessions/Running, Sessions/Logged and Sessions/Forced the
-- invariant and that each operation keeps it, Sessions/Runs the runs.
--
-- Reconnect models the phase of mds/Server.cc in which the clients of a restarted server reconnect,
-- with the names of the code; `session_closed` is the part of _session_logged that leaves the sets of
-- clients, and a set of them is a list. Whether the connection of a message has a session is a part of the
-- `Situation`; what the code reads of an inode is a parameter. Reconnect/Gathering has the theorem on
-- the phase, Reconnect/Caps the one on a client's message.
--
-- Subtrees models the map of mds/MDCache.cc from the roots of the subtrees to their bounds:
-- get_subtree_root, adjust_subtree_auth, try_subtree_merge and try_subtree_merge_at under their names,
-- with the pins and the authorities of the fragments; `split_subtree` and `merge_subtree` are the parts of
-- adjust_subtree_auth and try_subtree_merge_at that change the map. A fragment is a number, and a set is a
-- list without an item twice; what the locker, the journal and the counters are asked is a list of calls.
-- The auth pins that CDir::set_dir_auth moves are those of Dir/Freeze. Subtrees/Walks has the lemmas on
-- walks upwards, Subtrees/Mapped the invariant of the map, Subtrees/Splitting and Subtrees/Adjusting what a
-- new authority does, Subtrees/Merging and Subtrees/Joining what a merge does. Subtrees/Removing models
-- remove_subtree and Subtrees/Wouldbe get_wouldbe_subtree_bounds, each with its theorem; `authority` is
-- CDir::authority, where CInode::authority is taken to pass on that of the next root above or, with none
-- above, to answer the base inode's own, which is a parameter. The query does not add the null key that the code's look-up
-- of no root adds to the map.
--
-- Daemon models the states of the server in mds/MDS.cc: Daemon/Phases what starts with a state and what
-- its end asks of the monitors (`resolve_begin`, `reconnect_begin` and the like are resolve_start and
-- reconnect_start), and Daemon/MapHandling handle_mds_map, in the order of the code: `identify` is the part
-- that may jump to the end, `change_state` what a new state starts, `watch` what is done about the other
-- servers, the waiters and the balancer. A map of the servers is what the handler reads of it; the values of
-- the constants for the states are a parameter. An opened file, a sent message and the like is a call; calls
-- for the log output and the dumps of the cache are left out. Daemon/Changes has the theorem on the
-- assertions, Daemon/Starting and Daemon/Granted the lemmas on a map that grants what was asked for, and
-- Daemon/Recovery the theorem on the recovery; Daemon/Keeping and Daemon/Waking have what becomes of the
-- waiters for maps.
--
-- Not modelled: the start, the dispatch of messages, the commands and the tick of mds/MDS.cc, which call
-- classes that the repository does not hold; the measuring and the counters of the balancer; the encoding of objects and the object
-- store, which stand on classes that the repository does not hold; the handlers of client requests (the rest of mds/Server.cc) and the rest of the
-- cache (mds/MDCache.cc), for the same reason; the client (client/Client.cc); the Lua balancers and the
-- scripts, which are not part of the server; log output.
pub mod Prelude
pub mod Time
pub mod Balancer
pub mod Beacon
pub mod CacheObject
pub mod Daemon
pub mod Dir
pub mod InodeT
pub mod Inos
pub mod Reconnect
pub mod Sessions
pub mod Stats
pub mod Subtrees

-- ===== src/Raft/Primary.antt =====
-- floyd/src/floyd_primary_thread.cc: the tasks of the primary thread. A task gives back the tasks
-- that it adds, to its own thread and to those of the peers.
pub mod Elections
use moxie_simple.Base.{
  ℕ, ◌/◌, List, [], ◌∷◌, ◌++◌, Bool, true, false, ltb, if◌then◌else◌, size_add, map,
}
use moxie_simple.Raft.{nobody}
use moxie_simple.Raft.Node.{
  FloydImpl, Options, Role, follower, candidate, leader, become_leader, store_term_and_vote,
  with_context,
}
use moxie_simple.Raft.Vote.{start_election}

-- `TaskType`.
pub data TaskType : Type 0 where
  heart_beat check_leader new_command : TaskType

-- A task of the primary thread, with its delay in milliseconds; and a task for the thread of a
-- peer.
pub data Task : Type 0 where
  launch : TaskType → ℕ → Task
  request_vote_rpc append_entries_rpc : List ℕ → Task

-- `AddTask`.
unfoldable pub add_task : TaskType → Bool → Options → Task
add_task heart_beat is_delay o = launch heart_beat (if is_delay then o.heartbeat_us / 1000 else 0)
add_task check_leader is_delay o =
    launch check_leader (if is_delay then o.check_leader_us / 1000 else 0)
add_task new_command is_delay o = launch new_command 0

-- `NoticePeerTask`, for the peers with the given names.
unfoldable pub notice_peer_task : TaskType → List (List ℕ) → List Task
notice_peer_task heart_beat peers = map request_vote_rpc peers
notice_peer_task new_command peers = map append_entries_rpc peers
notice_peer_task check_leader peers = []

unfoldable pub launch_heart_beat : List (List ℕ) → FloydImpl → List Task
unfolding notice_peer_task add_task
launch_heart_beat peers s = elim s.context.role [
  | leader ↦ notice_peer_task new_command peers ++ add_task heart_beat true s.options ∷ []
  | follower ↦ []
  | candidate ↦ []
]

-- The part of `LaunchCheckLeader` for a single node.
unfoldable pub lead_alone : FloydImpl → FloydImpl
unfolding become_leader store_term_and_vote with_context
lead_alone s =
    store_term_and_vote
      (with_context (λ c. record (become_leader s.options c) { voted_for = s.options.local }) s)

-- The part of `LaunchCheckLeader` for a node that does not lead.
unfoldable pub check_timeout : ℕ → List (List ℕ) → FloydImpl → List Task × FloydImpl
unfolding lead_alone start_election notice_peer_task
check_timeout now peers s =
    if s.options.single_mode
    then ([], lead_alone s)
    else (if ltb (size_add s.context.last_op_time s.options.check_leader_us) now
        then (notice_peer_task heart_beat peers, start_election s)
        else ([], s))

unfoldable pub launch_check_leader : ℕ → List (List ℕ) → FloydImpl → List Task × FloydImpl
unfolding check_timeout add_task
launch_check_leader now peers s =
    let (tasks, s') = elim s.context.role as (λ x. List Task × FloydImpl) [
      | leader ↦ ([], s)
      | follower ↦ check_timeout now peers s
      | candidate ↦ check_timeout now peers s
    ] in
    (tasks ++ add_task check_leader true s.options ∷ [], s')

unfoldable pub launch_new_command : List (List ℕ) → FloydImpl → List Task
unfolding notice_peer_task
launch_new_command peers s = elim s.context.role [
  | leader ↦ notice_peer_task new_command peers
  | follower ↦ []
  | candidate ↦ []
]

-- ===== src/Raft/Events.antt =====
-- What can happen to a node while it runs, as the threads of floyd/src call it, one call after
-- another: everything that changes a `FloydImpl`.
pub mod VoteKept
use moxie_simple.Base.{ℕ, ◌≡◌, refl, List, Bool, true, false, some, Option}
use moxie_simple.Raft.{
  Entry, RequestVote, RequestVoteResponse, AppendEntries, AppendEntriesResponse,
}
use moxie_simple.Raft.Node.{FloydImpl}
use moxie_simple.Raft.Vote.{reply_request_vote, receive_vote, start_election}
use moxie_simple.Raft.Append.{Writes, reply_append_entries}
use moxie_simple.Raft.Peer.{Peer, receive_append}
use moxie_simple.Raft.Primary.{lead_alone}
use moxie_simple.Raft.Log.{append}
use moxie_simple.Raft.Server.{Database, Library, Server}
use moxie_simple.Raft.Apply.{apply_state_machine}
use moxie_simple.Raft.Execute.{launch_command}

-- A candidate asks, a peer has answered, the leader was silent for too long, a single node makes
-- itself the leader, a leader sends entries, a follower has answered to entries, a client's command is
-- appended to the log, a single node commits it, the committed entries are applied, which may be
-- changes of the members.
pub data Step {D : Type 0} (rocks : Database D) (lib : Library) (s : FloydImpl)
    : FloydImpl → Type 0 where
  asked : (now : ℕ) (r : RequestVote) → Step rocks lib s (reply_request_vote now r s).1
  voted : (res : RequestVoteResponse) → Step rocks lib s (receive_vote res s).1
  timed_out : Step rocks lib s (start_election s)
  led_alone : Step rocks lib s (lead_alone s)
  replicated :
      (w : Writes) (now : ℕ) (r : AppendEntries) (res : AppendEntriesResponse) {s' : FloydImpl}
      → reply_append_entries w now r s ≡ some (res, s')
      → Step rocks lib s s'
  acknowledged :
      (r : AppendEntries) (res : AppendEntriesResponse) (others : List ℕ) (p p' : Peer)
      (again : Bool) {s' : FloydImpl}
      → receive_append r res others s p ≡ some (again, p', s')
      → Step rocks lib s s'
  commanded :
      (written : Bool) (entries : List Entry)
      → Step rocks lib s (record s { log = (append written entries s.log).1 })
  launched :
      (index : ℕ) (server : Server D)
      → server.node ≡ s
      → Step rocks lib s (launch_command index server).node
  applied :
      (now : ℕ → ℕ) (server server' : Server D)
      → server.node ≡ s
      → apply_state_machine rocks lib now server ≡ some server'
      → Step rocks lib s server'.node

pub data Reach {D : Type 0} (rocks : Database D) (lib : Library) (s : FloydImpl)
    : FloydImpl → Type 0 where
  here : Reach rocks lib s s
  next : {t u : FloydImpl} → Reach rocks lib s t → Step rocks lib t u → Reach rocks lib s u

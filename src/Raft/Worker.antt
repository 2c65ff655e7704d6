-- ===== src/Raft/Worker.antt =====
-- floyd/src/floyd_worker.cc: what a server does with a message that it gets.
use moxie_simple.Base.{ℕ, Option, some, ◌>>=◌}
use moxie_simple.Raft.Vote.{reply_request_vote}
use moxie_simple.Raft.Append.{Writes, reply_append_entries}
use moxie_simple.Raft.Server.{Server}
use moxie_simple.Raft.Command.{
  CmdRequest, CmdResponse, k_read, k_write, k_delete, k_try_lock, k_unlock, k_add_server,
  k_remove_server, k_get_all_servers, k_mcached_write, k_mcached_read, k_request_vote,
  k_append_entries, k_server_status, k_ok, k_error, no_response,
}
use moxie_simple.Raft.Execute.{Status}

module _ {D : Type 0} (call : CmdRequest → CmdResponse → Server D → Status × CmdResponse × Server D)
    (w : Writes) (now : ℕ) where
  -- `DoCommand`, whose status is not looked at.
  unfoldable pub answer_command : CmdResponse → CmdRequest → Server D → CmdResponse × Server D
  answer_command response request s =
      let (st, response', s') = call request response s in (response', s')

  -- The response of a vote. A request without its part, which protobuf does not parse, has none.
  unfoldable pub answer_vote : CmdRequest → Server D → Option (CmdResponse × Server D)
  unfolding reply_request_vote
  answer_vote request s = do
    r ← request.request_vote
    let (res, node) = reply_request_vote now r s.node in
        some (
          record no_response { type = k_request_vote; code = k_ok; request_vote_res = some res },
          record s { node = node },
        )

  unfoldable pub answer_append : CmdRequest → Server D → Option (CmdResponse × Server D)
  unfolding reply_append_entries
  answer_append request s = do
    r ← request.append_entries
    (res, node) ← reply_append_entries w now r s.node
    some (
      record no_response { type = k_append_entries; code = k_ok; append_entries_res = some res },
      record s { node = node },
    )

  -- `DealMessage` of a message that parses. `none` is a call that does not return, or a message
  -- without the part that its type names.
  unfoldable pub deal_message : CmdRequest → Server D → Option (CmdResponse × Server D)
  unfolding answer_command answer_vote answer_append
  deal_message request s =
      let typed = record no_response { type = request.type } in
      let command = some (answer_command (record typed { code = k_error }) request s) in
      let membership = some (answer_command typed request s) in
      elim request.type [
        | k_mcached_read ↦ command
        | k_mcached_write ↦ command
        | k_write ↦ command
        | k_delete ↦ command
        | k_read ↦ command
        | k_try_lock ↦ command
        | k_unlock ↦ command
        | k_server_status ↦ some (no_response, s)
        | k_add_server ↦ membership
        | k_remove_server ↦ membership
        | k_get_all_servers ↦ membership
        | k_request_vote ↦ answer_vote request s
        | k_append_entries ↦ answer_append request s
      ]

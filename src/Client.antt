-- ===== src/Client.antt =====
-- `AgentClient` of packages/local-agent/src/websocket/agent-client.ts: how a command of the backend is
-- handled and acknowledged, and how the client stops. The socket, the prompt runner and the checks
-- of readiness are ports.
pub mod Laws
pub mod Pushes
pub mod Tests
use pair_dock.Prelude.{
  ℕ, String, Bool, true, false, not, ◌&&◌, ◌+◌, ◌-◌, Option, none, some, List, Result, ok, err,
  ◌<>◌, ltb, or_else, if◌then◌else◌,
}
use pair_dock.Prelude.Actions.{Action, continue, rescue, ◌>>=◌, ◌>>◌, return, throw, catch}
use pair_dock.Domain.Status.{SessionStatus, agent_connecting}
use pair_dock.Session.Start.Create.{PrepareCommand}
use pair_dock.Workspaces.Sandbox.{SessionWorkspace}
use pair_dock.Workspaces.{find_active}
use pair_dock.Runner.Ports.{Failure, thrown, aggregate, error_message, CloseMode, RunnerPorts}
use pair_dock.Runner.{Host, push_branch}
use pair_dock.Runner.Cleanup.{close, shutdown}
use pair_dock.Runner.Prepare.{prepare}

-- The events that the handlers publish.
pub data ClientEvent : Type 0 where
  session_progress : (session_id : String) → SessionStatus → ClientEvent
  session_ready : (session_id preview_url : String) → ClientEvent
  session_closed : (session_id : String) → (cleaned : Bool) → ClientEvent
  branch_pushed : (session_id branch_name : String) → ClientEvent
  readiness_result :
      (project_key : String) → (session_id : Option String) → (report : String) → ClientEvent
  error_event : (code session_id message : String) → (retryable : Bool) → ClientEvent

-- The backend's answer to an event: a refusal, an acceptance, or none within five seconds.
pub data EventReply : Type 0 where
  rejects : (reason : Option String) → EventReply
  accepts no_answer : EventReply

-- What a handler throws: a `BackendEventRejectedError`, or any other error.
pub data Thrown : Type 0 where
  event_rejected : (message : String) → Thrown
  failed : Failure → Thrown

pub record PromptInput : Type 0 where
  pub session_id : String
  pub project_key : String
  pub prompt : String
  pub attachments : List String
  pub model_id : String
  pub reasoning_effort : String
  pub worktree_path : String
  pub preview_url : Option String

pub record PromptCommand : Type 0 where
  pub session_id : String
  pub prompt : String
  pub attachments : List String
  pub model_id : String
  pub reasoning_effort : String

-- The messages that the backend sends; `invalid` does not parse.
pub data ClientCommand : Type 0 where
  invalid : ClientCommand
  session_prepare : PrepareCommand → ClientCommand
  readiness_check : (project_key : String) → (session_id : Option String) → ClientCommand
  session_close : (session_id : String) → CloseMode → ClientCommand
  agent_prompt : PromptCommand → ClientCommand
  agent_cancel : (session_id : String) → ClientCommand
  git_push_branch : (session_id commit_message : String) → ClientCommand

-- What the backend gets back for a command.
pub data Acknowledgement : Type 0 where
  accepted : Acknowledgement
  refused : (error : String) → Acknowledgement

pub data ClientStatus : Type 0 where
  starting online reconnecting in_error stopped : ClientStatus

pub record ClientPorts : Type 1 where
  pub runner : RunnerPorts
  pub emit : ClientEvent → runner.World → runner.World × EventReply
  pub run_prompt : PromptInput → runner.World → runner.World × Result Thrown (Unit {0})
  pub cancel_prompt : String → runner.World → runner.World × Result Failure (Unit {0})
  pub run_readiness : String → Option String → runner.World → runner.World × Result Failure String
  pub redact : String → String
  pub prevent_stop_while_busy : Bool

-- `connected` tells whether there is a socket.
pub record Client (World : Type 0) : Type 0 where
  pub host : Host World
  pub connected : Bool
  pub stopping : Bool
  pub active_commands : ℕ
  pub connection_status : ClientStatus

abbrev pub not_connected : Failure
not_connected = thrown "AgentClient socket is not connected." false

abbrev pub event_type : ClientEvent → String
event_type (session_progress _ _) = "session.progress"
event_type (session_ready _ _) = "session.ready"
event_type (session_closed _ _) = "session.closed"
event_type (branch_pushed _ _) = "git.branchPushed"
event_type (readiness_result _ _ _) = "readiness.result"
event_type (error_event _ _ _ _) = "error"

abbrev pub rejection : ClientEvent → Option String → Thrown
rejection event reason =
    event_rejected
      ("PairDock backend rejected " <> event_type event <> ": " <> or_else reason "unknown error")

-- `emitEvent`: only a refusal is an error.
abbrev pub replied : {W : Type 0} → ClientEvent → W × EventReply → W × Result Thrown (Unit {0})
replied event (w, rejects reason) = (w, err (rejection event reason))
replied event (w, accepts) = (w, ok tt)
replied event (w, no_answer) = (w, ok tt)

-- An error of a handler, where the session runner sees it.
abbrev pub as_failure : Thrown → Failure
as_failure (event_rejected message) = thrown message false
as_failure (failed e) = e

abbrev pub lowered : {W : Type 0} → W × Result Thrown (Unit {0}) → W × Result Failure (Unit {0})
lowered (w, ok _) = (w, ok tt)
lowered (w, err e) = (w, err (as_failure e))

-- `isRetryableError`.
abbrev pub is_retryable : Failure → Bool
is_retryable (thrown _ retryable) = retryable
is_retryable (aggregate _ _) = false

abbrev pub message_of : Thrown → String
message_of e = error_message (as_failure e)

module _ {W A : Type 0} where
  -- A call of the session runner, and one of another port.
  abbrev pub on_host : Client W → Host W × Result Failure A → Client W × Result Thrown A
  on_host client (host, ok a) = (record client { host = host }, ok a)
  on_host client (host, err e) = (record client { host = host }, err (failed e))

  abbrev pub on_world : Client W → W × Result Thrown A → Client W × Result Thrown A
  on_world client (w, result) = (record client { host = record client.host { world = w } }, result)

  abbrev pub lifted : W × Result Failure A → W × Result Thrown A
  lifted (w, ok a) = (w, ok a)
  lifted (w, err e) = (w, err (failed e))

-- The end of a command: `.then` and `.catch` behind the handler.
abbrev pub acknowledged :
    {W : Type 0} → Client W × Result Thrown (Unit {0}) → Client W × Acknowledgement
acknowledged (client, ok _) = (client, accepted)
acknowledged (client, err e) = (client, refused (message_of e))

module _ (C : ClientPorts) where
  abbrev pub World : Type 0
  World = C.runner.World

  abbrev pub Handle : Type 0 → Type 0
  Handle A = Action (Client World) Thrown A

  abbrev pub emit_event : ClientEvent → Handle (Unit {0})
  emit_event event client = elim client.connected [
    | true ↦ on_world client (replied event (C.emit event client.host.world))
    | false ↦ (client, err (failed not_connected))
  ]

  abbrev pub emit_error : String → String → Failure → Bool → Handle (Unit {0})
  emit_error code id e retryable =
      emit_event (error_event code id (C.redact (error_message e)) retryable)

  -- The ports of the runner with the hook of `handleSessionPrepare`.
  abbrev pub hooked : Bool → RunnerPorts
  hooked connected = record C.runner {
    on_progress = λ id status world. elim connected [
      | true ↦
          lowered (replied (session_progress id status) (C.emit (session_progress id status) world))
      | false ↦ (world, err not_connected)
    ];
  }

  abbrev pub preview_url_of : SessionWorkspace → String
  preview_url_of w = or_else w.preview_url ""

  abbrev pub run_prepare : PrepareCommand → Handle SessionWorkspace
  run_prepare command client =
      on_host client (prepare (hooked client.connected) command client.host)

  unfoldable pub handle_session_prepare : PrepareCommand → Handle (Unit {0})
  handle_session_prepare command =
      catch
        (emit_event (session_progress command.session_id agent_connecting)
          >> (run_prepare command >>= λ w.
              emit_event (session_ready command.session_id (preview_url_of w))))
        (λ e.
          emit_error "session.preview.failed" command.session_id (as_failure e)
            (is_retryable (as_failure e)))

  abbrev pub run_close : String → CloseMode → Handle (Unit {0})
  run_close id mode client = on_host client (close C.runner id mode client.host)

  unfoldable pub handle_session_close : String → CloseMode → Handle (Unit {0})
  handle_session_close id mode =
      catch (run_close id mode >> emit_event (session_closed id true))
        (λ e. emit_error "session.close.failed" id (as_failure e) false >> throw e)

  unfoldable pub handle_readiness_check : String → Option String → Handle (Unit {0})
  handle_readiness_check key id =
      (λ client. on_world client (lifted (C.run_readiness key id client.host.world))) >>= λ report.
      emit_event (readiness_result key id report)

  abbrev pub prompt_input : PromptCommand → SessionWorkspace → PromptInput
  prompt_input command w = record {
    session_id = command.session_id;
    project_key = w.project_key;
    prompt = command.prompt;
    attachments = command.attachments;
    model_id = command.model_id;
    reasoning_effort = command.reasoning_effort;
    worktree_path = w.worktree_path;
    preview_url = w.preview_url;
  }

  -- An event that the backend has refused is not reported by another event.
  abbrev pub report_prompt_error : String → Thrown → Handle (Unit {0})
  report_prompt_error id (event_rejected message) = throw (event_rejected message)
  report_prompt_error id (failed e) = emit_error "agent.prompt.failed" id e false

  abbrev pub prompt_in : PromptCommand → Option SessionWorkspace → Handle (Unit {0})
  prompt_in command none =
      emit_error "agent.prompt.failed" command.session_id
        (thrown ("Session " <> command.session_id <> " is not prepared on this agent.") false) false
  prompt_in command (some w) =
      catch (λ client. on_world client (C.run_prompt (prompt_input command w) client.host.world))
        (report_prompt_error command.session_id)

  unfoldable pub handle_agent_prompt : PromptCommand → Handle (Unit {0})
  handle_agent_prompt command client =
      prompt_in command (find_active command.session_id client.host.registry) client

  unfoldable pub handle_agent_cancel : String → Handle (Unit {0})
  handle_agent_cancel id =
      catch (λ client. on_world client (lifted (C.cancel_prompt id client.host.world)))
        (λ e. emit_error "agent.cancel.failed" id (as_failure e) false)

  abbrev pub run_push : String → String → Handle String
  run_push id message client = on_host client (push_branch C.runner id message client.host)

  unfoldable pub handle_git_push_branch : String → String → Handle (Unit {0})
  handle_git_push_branch id message =
      catch (run_push id message >>= λ branch. emit_event (branch_pushed id branch))
        (λ e. emit_error "git.pushBranch.failed" id (as_failure e) false)

  -- `handleProtocolMessage`.
  unfoldable pub handle_protocol_message : ClientCommand → Handle (Unit {0})
  unfolding handle_session_prepare handle_session_close handle_readiness_check handle_agent_prompt
      handle_agent_cancel handle_git_push_branch
  handle_protocol_message invalid = return tt
  handle_protocol_message (session_prepare command) = handle_session_prepare command
  handle_protocol_message (readiness_check key id) = handle_readiness_check key id
  handle_protocol_message (session_close id mode) = handle_session_close id mode
  handle_protocol_message (agent_prompt command) = handle_agent_prompt command
  handle_protocol_message (agent_cancel id) = handle_agent_cancel id
  handle_protocol_message (git_push_branch id message) = handle_git_push_branch id message

  -- `trackCommand`.
  abbrev pub tracked :
      {A : Type 0} → Client World × Result Thrown A → Client World × Result Thrown A
  tracked (client, result) =
      (record client { active_commands = client.active_commands - 1 }, result)

  abbrev pub track_command : {A : Type 0} → Handle A → Handle A
  track_command operation client =
      tracked (operation (record client { active_commands = client.active_commands + 1 }))

  -- The listener of a message.
  unfoldable pub on_message : ClientCommand → Client World → Client World × Acknowledgement
  unfolding handle_protocol_message
  on_message command client = elim client.stopping [
    | true ↦ (client, refused "The local agent is stopping.")
    | false ↦ acknowledged (track_command (handle_protocol_message command) client)
  ]

  abbrev pub stopped_runner : Handle (Unit {0})
  stopped_runner client =
      continue (on_host client (shutdown C.runner client.host))
        (λ _ after. (record after { connection_status = stopped }, ok tt))

  unfoldable pub stop : Handle (Unit {0})
  stop client =
      if C.prevent_stop_while_busy && ltb 0 client.active_commands
      then (
        client,
        err (
            failed (
              thrown
                "Agent work is still running. Wait for the current operation to finish before stopping."
                false)),
      )
      else stopped_runner (record client { stopping = true; connected = false })

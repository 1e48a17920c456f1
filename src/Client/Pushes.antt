-- ===== src/Client/Pushes.antt =====
-- How the client acknowledges a command to push a branch.
use pair_dock.Prelude.{String, Bool, ◌+◌, ◌-◌, true, false, ◌≡◌, ap, ◌∙◌, Result, ok, err, arith}
use pair_dock.Prelude.Actions.{continue, rescue}
use pair_dock.Runner.Ports.{Failure, error_message}
use pair_dock.Runner.{Host, push_branch}
use pair_dock.Client.{
  ClientPorts, Client, ClientEvent, branch_pushed, error_event, EventReply, rejects, accepts,
  no_answer, accepted, git_push_branch, as_failure, on_host, acknowledged, tracked, emit_event,
  emit_error, handle_git_push_branch, handle_protocol_message, on_message,
}

abbrev pub is_refusal : EventReply → Bool
is_refusal (rejects _) = true
is_refusal accepts = false
is_refusal no_answer = false

module _ (C : ClientPorts) where
  -- The event that tells how a push has ended.
  abbrev pub push_report : String → Result Failure String → ClientEvent
  push_report id (ok branch) = branch_pushed id branch
  push_report id (err e) = error_event "git.pushBranch.failed" id (C.redact (error_message e)) false

  -- The backend refuses no event: it accepts it, or does not answer in time.
  abbrev pub Willing : Type 0
  Willing =
      (event : ClientEvent) (world : C.runner.World) → is_refusal (C.emit event world).1 ≡ false

  -- The state behind an event that is not refused.
  abbrev pub told : ClientEvent → Client C.runner.World → Client C.runner.World
  told event client = record client {
    host = record client.host { world = (C.emit event client.host.world).0 };
  }

  module _ (willing : Willing) where
    emitted :
        (event : ClientEvent) (client : Client C.runner.World)
        → client.connected ≡ true
        → emit_event C event client ≡ (told event client, ok tt)
    emitted event client connected = ground (arith, willing event client.host.world, connected)

    pushed :
        (id : String) (client : Client C.runner.World)
        (p : Host C.runner.World × Result Failure String)
        → client.connected ≡ true
        → rescue
            (continue (on_host client p) (λ branch. emit_event C (branch_pushed id branch)))
            (λ e. emit_error C "git.pushBranch.failed" id (as_failure e) false)
          ≡ (told (push_report id p.1) (record client { host = p.0 }), ok tt)
    pushed id client (host, ok branch) connected =
        ap (λ q. rescue q (λ e. emit_error C "git.pushBranch.failed" id (as_failure e) false))
          (emitted (branch_pushed id branch) (record client { host = host }) connected)
    pushed id client (host, err e) connected =
        emitted (push_report id (err e)) (record client { host = host }) connected

    -- Where the client is connected and not stopping and the backend refuses no event, which it
    -- accepts or does not answer in time, a command to
    -- push a branch is acknowledged as accepted whether the push has returned or thrown. The state
    -- is the one that the push leaves, behind the event that tells how it ended.
    pub push-acknowledged :
        (id message : String) (client : Client C.runner.World)
        → client.connected ≡ true
        → client.stopping ≡ false
        → on_message C (git_push_branch id message) client ≡ (
          told
              (push_report id (push_branch C.runner id message client.host).1)
              (record client { host = (push_branch C.runner id message client.host).0 }),
          accepted,
        )
    unfolding on_message handle_protocol_message handle_git_push_branch
    push-acknowledged id message client connected running =
        let started : Client C.runner.World = record client {
          active_commands = client.active_commands + 1;
        } in
        let p = push_branch C.runner id message client.host in
        let handled = handle_git_push_branch C id message started in
        let count : client.active_commands + 1 - 1 ≡ client.active_commands = omega arith in
        let called : on_message C (git_push_branch id message) client
            ≡ acknowledged (tracked C handled) =
          ground (arith, running) in
        called
        ∙ ap (λ q. acknowledged (tracked C q)) (pushed id started p connected)
        ∙ ap
            (λ n. (
              record (told (push_report id p.1) (record client { host = p.0 })) {
                active_commands = n;
              },
              accepted,
            ))
            count

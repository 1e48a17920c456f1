-- ===== src/Session/Prompts/Tests.antt =====
-- A prompt with a screenshot, and one whose message cannot be saved.
use pair_dock.Prelude.{
  String, Option, none, some, List, [], ◌∷◌, ◌≡◌, refl, ok, err, if◌then◌else◌, ◌==◌,
}
use pair_dock.Prelude.Steps.{Host}
use pair_dock.Domain.{Session, SessionStatus}
use pair_dock.Domain.Samples.{session_in}
use pair_dock.Domain.Status.{ready, agent_running}
use pair_dock.Session.Attachments.{remove, delete_objects}
use pair_dock.Session.Prompts.{
  Step, Attachment, Actor, stored, sent_prompt, sent_cancel, saved, removed, PromptCommand,
  PromptPorts, build_prompt_command, new_message, create_prompt, create_prompt_response,
  cancel_prompt, prompt_required, not_promptable, not_running, thrown,
}

abbrev screenshot : String → Attachment
screenshot name = record {
  id = "a1";
  original_name = name;
  mime_type = "image/png";
  byte_size = 10;
}

abbrev screenshots : List String → List Attachment
screenshots [] = []
screenshots (name ∷ names) = screenshot name ∷ screenshots names

-- The world is the status of the session "s1".
abbrev find : String → SessionStatus → Option Session
find id status = if id == "s1" then some (session_in status) else none

abbrev ports : PromptPorts SessionStatus String String String
ports = record {
  find_session = find;
  create_attachments = λ id user names status. (status, ok (screenshots names));
  delete_object = λ a status. (status, ok tt);
  delete_by_ids = λ ids status. (status, ok tt);
  route_prompt = λ command status. (status, ok tt);
  route_cancel = λ id status. (status, ok tt);
  save_message = λ message ids status. (status, ok "m1");
  trim = λ text. text;
  length = λ text. 5;
}

abbrev unsaved_ports : PromptPorts SessionStatus String String String
unsaved_ports = record ports { save_message = λ message ids status. (status, err "no database") }

abbrev stuck_ports : PromptPorts SessionStatus String String String
stuck_ports = record unsaved_ports { delete_object = λ a status. (status, err "no storage") }

abbrev actor : Actor
actor = record { user_id = "pm"; role = "pm" }

abbrev host : SessionStatus → Host SessionStatus Step
host status = record { world = status; steps = [] }

abbrev one : List Attachment
one = screenshot "a.png" ∷ []

abbrev command : PromptCommand
command = build_prompt_command "s1" (session_in ready) "blue" one

done :
    (create_prompt ports "s1" actor "blue" ("a.png" ∷ []) (host ready)).0.steps
    ≡ saved (new_message "s1" actor "blue") one ∷ sent_prompt command ∷ stored one ∷ []
unfolding create_prompt
done = refl

-- The agent has the command, and its attachments are gone.
sent_without_attachments :
    create_prompt unsaved_ports "s1" actor "blue" ("a.png" ∷ []) (host ready) ≡ (
      record {
        world = ready;
        steps =
            removed (record { deleted = one; kept = [] }) ∷ sent_prompt command ∷ stored one ∷ [];
      },
      err (thrown "no database"),
    )
unfolding create_prompt remove delete_objects
sent_without_attachments = refl

-- The storage does not delete the screenshot, and the removal returns.
kept_attachments : create_prompt stuck_ports "s1" actor "blue" ("a.png" ∷ []) (host ready) ≡ (
  record {
    world = ready;
    steps = removed (record { deleted = []; kept = one }) ∷ sent_prompt command ∷ stored one ∷ [];
  },
  err (thrown "no database"),
)
unfolding create_prompt remove delete_objects
kept_attachments = refl

busy :
    ((create_prompt ports "s1" actor "blue" [] (host agent_running)).1 ≡ err not_promptable)
    × ((cancel_prompt ports "s1" (host agent_running)).0.steps ≡ sent_cancel "s1" ∷ [])
    × ((cancel_prompt ports "s1" (host ready)).1 ≡ err not_running)
    × ((create_prompt_response ports "s1" none none none [] (host ready)).1 ≡ err prompt_required)
unfolding create_prompt cancel_prompt create_prompt_response
busy = (refl, refl, refl, refl)

-- ===== src/Session/Prompts.antt =====
-- apps/api/src/sessions/session-prompt.service.ts. The host keeps, newest first, the calls that
-- have returned, and what a clean-up has removed.
pub mod Laws
mod Tests
use pair_dock.Prelude.{
  ℕ, String, Bool, true, false, not, ◌&&◌, Option, none, some, List, [], ◌∷◌, map, ltb, truthy,
  if◌then◌else◌, Result, ok, err,
}
use pair_dock.Prelude.Actions.{Action, ◌>>=◌, return, throw, continue}
use pair_dock.Prelude.Steps.{Host, noting, removing}
use pair_dock.Session.Attachments.{Removal, remove}
use pair_dock.Domain.{Identity, Session}
use pair_dock.Domain.Status.{agent_running, same_status, is_promptable}

pub record Attachment : Type 0 where
  pub id : String
  pub original_name : String
  pub mime_type : String
  pub byte_size : ℕ

pub record AttachmentView : Type 0 where
  pub id : String
  pub file_name : String
  pub mime_type : String
  pub byte_size : ℕ

-- The command, without its random identifier and its time.
pub record PromptCommand : Type 0 where
  pub session_id : String
  pub prompt : String
  pub attachments : List AttachmentView
  pub model_id : String
  pub reasoning_effort : String

pub record Actor : Type 0 where
  pub user_id : String
  pub role : String

pub record NewMessage : Type 0 where
  pub session_id : String
  pub user_id : String
  pub role : String
  pub content : String

pub record Prompted (M : Type 0) : Type 0 where
  pub message : M
  pub attachments : List Attachment

pub data Step : Type 0 where
  stored : List Attachment → Step
  sent_prompt : PromptCommand → Step
  sent_cancel : (session_id : String) → Step
  saved : NewMessage → List Attachment → Step
  removed not_removed : Removal Attachment → Step

pub data PromptError (E : Type 0) : Type 0 where
  prompt_required prompt_too_long unresolved_actor session_not_found not_promptable not_running :
      PromptError E
  thrown : E → PromptError E

-- The repositories, the attachments and the router. `File` is an uploaded screenshot, `M` a message.
pub record PromptPorts (W File M E : Type 0) : Type 0 where
  pub find_session : String → W → Option Session
  pub create_attachments : String → String → List File → W → W × Result E (List Attachment)
  pub delete_object : Attachment → W → W × Result E (Unit {0})
  pub delete_by_ids : List String → W → W × Result E (Unit {0})
  pub route_prompt : PromptCommand → W → W × Result E (Unit {0})
  pub route_cancel : String → W → W × Result E (Unit {0})
  pub save_message : NewMessage → List String → W → W × Result E M
  pub trim : String → String
  pub length : String → ℕ

abbrev pub to_attachment_view : Attachment → AttachmentView
to_attachment_view a = record {
  id = a.id;
  file_name = a.original_name;
  mime_type = a.mime_type;
  byte_size = a.byte_size;
}

abbrev pub attachment_id : Attachment → String
attachment_id a = a.id

abbrev pub max_agent_prompt_length : ℕ
max_agent_prompt_length = 20480

abbrev pub prompt_of : String → String
prompt_of content =
    if truthy content
    then content
    else "Analyse les captures jointes et applique les modifications nécessaires."

abbrev pub build_prompt_command : String → Session → String → List Attachment → PromptCommand
build_prompt_command session_id session content attachments = record {
  session_id = session_id;
  prompt = prompt_of content;
  attachments = map to_attachment_view attachments;
  model_id = session.model_id;
  reasoning_effort = session.reasoning_effort;
}

abbrev pub new_message : String → Actor → String → NewMessage
new_message session_id actor content = record {
  session_id = session_id;
  user_id = actor.user_id;
  role = actor.role;
  content = content;
}

abbrev is_empty : {A : Type 0} → List A → Bool
is_empty [] = true
is_empty (_ ∷ _) = false

abbrev pub PromptAction : Type 0 → Type 0 → Type 0 → Type 0
PromptAction W E A = Action (Host W Step) (PromptError E) A

module _ {W File M E : Type 0} (P : PromptPorts W File M E) where
  abbrev pub store_attachments : String → Actor → List File → PromptAction W E (List Attachment)
  store_attachments session_id actor files host =
      noting thrown stored host.steps
        (P.create_attachments session_id actor.user_id files host.world)

  abbrev pub send_prompt : PromptCommand → PromptAction W E (Unit {0})
  send_prompt command host =
      noting thrown (λ _. sent_prompt command) host.steps (P.route_prompt command host.world)

  abbrev pub save : NewMessage → List Attachment → PromptAction W E M
  save message attachments host =
      noting thrown (λ _. saved message attachments) host.steps
        (P.save_message message (map attachment_id attachments) host.world)

  -- The `try` block.
  abbrev pub deliver :
      String → Session → Actor → String → List Attachment → PromptAction W E (Prompted M)
  deliver session_id session actor content attachments =
      send_prompt (build_prompt_command session_id session content attachments) >>= λ _.
      save (new_message session_id actor content) attachments >>= λ message.
      return (record { message = message; attachments = attachments })

  -- The `catch` block.
  abbrev pub or_remove :
      List Attachment
      → Host W Step × Result (PromptError E) (Prompted M)
      → Host W Step × Result (PromptError E) (Prompted M)
  or_remove attachments (host, ok prompted) = (host, ok prompted)
  or_remove attachments (host, err e) =
      removing thrown removed not_removed e host.steps
        (remove P.delete_object P.delete_by_ids attachment_id attachments host.world)

  abbrev pub prompt_session :
      String → Session → Actor → String → List File → PromptAction W E (Prompted M)
  prompt_session session_id session actor content files =
      store_attachments session_id actor files >>= λ attachments host.
      or_remove attachments (deliver session_id session actor content attachments host)

  abbrev pub prompt_found :
      String → Actor → String → List File → Option Session → PromptAction W E (Prompted M)
  prompt_found session_id actor content files none = throw session_not_found
  prompt_found session_id actor content files (some session) =
      if is_promptable session.status
      then prompt_session session_id session actor content files
      else throw not_promptable

  unfoldable pub create_prompt : String → Actor → String → List File → PromptAction W E (Prompted M)
  create_prompt session_id actor content files host =
      prompt_found session_id actor content files (P.find_session session_id host.world) host

  -- The view of a prompt, without the text of its time.
  abbrev prompt_view : Prompted M → M × List AttachmentView
  prompt_view p = (p.message, map to_attachment_view p.attachments)

  abbrev trimmed : Option String → String
  trimmed none = ""
  trimmed (some content) = P.trim content

  -- `createPromptResponse`, behind the guards of the content.
  abbrev prompt_as :
      String
      → Option Identity
      → Option String
      → String
      → List File
      → PromptAction W E (M × List AttachmentView)
  prompt_as session_id (some user) (some role) content files =
      create_prompt session_id (record { user_id = user.id; role = role }) content files >>= λ p.
      return (prompt_view p)
  prompt_as session_id _ _ content files = throw unresolved_actor

  -- The role is that of the member of the session; absent screenshots are none.
  unfoldable pub create_prompt_response :
      String
      → Option Identity
      → Option String
      → Option String
      → List File
      → PromptAction W E (M × List AttachmentView)
  create_prompt_response session_id user role given files =
      let content = trimmed given in
      if not (truthy content) && is_empty files
      then throw prompt_required
      else (if ltb max_agent_prompt_length (P.length content)
          then throw prompt_too_long
          else prompt_as session_id user role content files)

  unfoldable pub cancel_prompt : String → PromptAction W E (Unit {0})
  cancel_prompt session_id host = elim (P.find_session session_id host.world) [
    | none ↦ (host, err session_not_found)
    | some session ↦
        if same_status session.status agent_running
        then noting thrown (λ _. sent_cancel session_id) host.steps
            (P.route_cancel session_id host.world)
        else (host, err not_running)
  ]

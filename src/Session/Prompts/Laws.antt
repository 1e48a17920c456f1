-- ===== src/Session/Prompts/Laws.antt =====
-- What a prompt leaves, in every outcome.
use pair_dock.Prelude.{String, true, some, List, ◌∷◌, ◌≡◌, ◌⊎◌, Result}
use pair_dock.Prelude.Steps.{Host}
use pair_dock.Domain.{Session}
use pair_dock.Domain.Status.{is_promptable}
use pair_dock.Session.Attachments.{Removal, Splits, remove}
use pair_dock.Session.Prompts.{
  Attachment, PromptCommand, Actor, Prompted, Step, stored, attachment_id, sent_prompt, saved,
  removed, not_removed, PromptError, PromptPorts, build_prompt_command, new_message,
}

-- The steps of a prompt that has failed after its attachments were stored. Each of them was then
-- deleted or kept; where the removal has thrown, the rows of the deleted ones are left.
pub data Withdrawn {W E : Type 0} (delete_object : Attachment → W → W × Result E (Unit {0}))
    (command : List Attachment → PromptCommand) (before : List Step) : List Step → Type 0 where
  unsent :
      (a : List Attachment) (r : Removal Attachment)
      → Splits delete_object a r
      → Withdrawn delete_object command before (removed r ∷ stored a ∷ before)
  sent :
      (a : List Attachment) (r : Removal Attachment)
      → Splits delete_object a r
      → Withdrawn delete_object command before
          (removed r ∷ sent_prompt (command a) ∷ stored a ∷ before)
  unsent_left :
      (a : List Attachment) (r : Removal Attachment)
      → Splits delete_object a r
      → Withdrawn delete_object command before (not_removed r ∷ stored a ∷ before)
  sent_left :
      (a : List Attachment) (r : Removal Attachment)
      → Splits delete_object a r
      → Withdrawn delete_object command before
          (not_removed r ∷ sent_prompt (command a) ∷ stored a ∷ before)

module _ {W File M E : Type 0} (P : PromptPorts W File M E) (session_id content : String)
    (actor : Actor) (before : List Step) where
  -- A prompt of this session that was answered.
  abbrev pub IsPrompted : Session → Prompted M → Host W Step → Type 0
  IsPrompted session p h =
      h.steps
      ≡ saved (new_message session_id actor content) p.attachments
        ∷ sent_prompt (build_prompt_command session_id session content p.attachments)
        ∷ stored p.attachments
        ∷ before

  -- A prompt of this session that has thrown.
  abbrev pub IsWithdrawn : Session → PromptError E → Host W Step → Type 0
  IsWithdrawn session e h =
      (h.steps ≡ before)
      ⊎ Withdrawn P.delete_object (build_prompt_command session_id session content) before h.steps

  module _ (session : Session) where
    -- What the clean-up answers.
    cleaned : List Attachment → W → Removal Attachment × W × Result E (Unit {0})
    cleaned = remove P.delete_object P.delete_by_ids attachment_id

module _ {W File M E : Type 0} (P : PromptPorts W File M E) (session_id content : String)
    (actor : Actor) (files : List File) (h : Host W Step) where
  abbrev pub Answered : Prompted M → Host W Step → Type 0
  Answered p after =
      (session : Session) × (P.find_session session_id h.world ≡ some session)
      × (is_promptable session.status ≡ true)
      × IsPrompted P session_id content actor h.steps session p after

  abbrev pub Refused : PromptError E → Host W Step → Type 0
  Refused e after =
      (after.steps ≡ h.steps)
      ⊎ ((session : Session) × (P.find_session session_id h.world ≡ some session)
          × (is_promptable session.status ≡ true)
          × Withdrawn P.delete_object (build_prompt_command session_id session content) h.steps
              after.steps)

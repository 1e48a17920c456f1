-- ===== src/Review/Create/Laws.antt =====
-- When a review request is created, and what is left where it is not.
use pair_dock.Prelude.{String, Option, some, List, [], ◌∷◌, ◌≡◌, ◌⊎◌, Result, ok}
use pair_dock.Prelude.Steps.{Host}
use pair_dock.Domain.{developer, SessionMember, Project, Identity}
use pair_dock.Review.Policy.{failure_reasons}
use pair_dock.Review.Create.{
  ReviewInput, review_row, created_update, Opened, ReviewStep, stored, pushed, opened, recorded,
  removed, not_removed, ReviewError, ReviewPorts, Ready, build_conventional_commit_message,
  open_input,
}
use pair_dock.Session.Attachments.{Removal, Splits, remove}
use pair_dock.Session.Prompts.{Attachment, attachment_id}

-- The developer who owns the project, or a member of the session with the role of a PM.
abbrev pub MayAsk : Identity → Project → Option SessionMember → Type 0
MayAsk actor project member =
    ((actor.kind ≡ developer) × (actor.id ≡ project.owner_user_id))
    ⊎ ((m : SessionMember) × (member ≡ some m) × (m.role ≡ "pm"))

module _ {W File E : Type 0} (P : ReviewPorts W File E) (session_id : String) (actor : Identity)
    (input : ReviewInput) where
  -- The session, its project and connection exist, the actor is entitled, and the policy has no
  -- reason against the request.
  pub record MayCreate (world : W) (ready : Ready) : Type 0 where
    pub session : P.find_session session_id world ≡ some ready.session
    pub project : P.find_project ready.session.project_id world ≡ some ready.project
    pub connection :
        P.find_connection ready.project.source_control_connection_id world ≡ some ready.connection
    pub entitled : MayAsk actor ready.project (P.find_member session_id actor.id world)
    pub valid : failure_reasons (P.find_latest session_id world) ready.session.status ≡ []
    pub named :
        build_conventional_commit_message P input.commit_type input.title ≡ ok ready.commit_message

  -- The steps behind a request that was opened and recorded.
  abbrev pub created : Ready → List Attachment → Opened → List ReviewStep → List ReviewStep
  created ready a answer before =
      recorded (review_row session_id answer) (created_update session_id ready.session)
      ∷ opened (open_input P ready session_id input a) answer
      ∷ pushed session_id ready.commit_message
      ∷ stored a
      ∷ before

  -- The steps of a request that has failed after its attachments were stored. Each of them was then
  -- deleted or kept, where the request was not opened; where the removal has thrown, the rows of the
  -- deleted ones are left.
  pub data Abandoned (ready : Ready) (before : List ReviewStep) : List ReviewStep → Type 0 where
    unpushed :
        (a : List Attachment) (r : Removal Attachment)
        → Splits P.delete_object a r
        → Abandoned ready before (removed r ∷ stored a ∷ before)
    unopened :
        (a : List Attachment) (r : Removal Attachment)
        → Splits P.delete_object a r
        → Abandoned ready before
            (removed r ∷ pushed session_id ready.commit_message ∷ stored a ∷ before)
    unpushed_left :
        (a : List Attachment) (r : Removal Attachment)
        → Splits P.delete_object a r
        → Abandoned ready before (not_removed r ∷ stored a ∷ before)
    unopened_left :
        (a : List Attachment) (r : Removal Attachment)
        → Splits P.delete_object a r
        → Abandoned ready before
            (not_removed r ∷ pushed session_id ready.commit_message ∷ stored a ∷ before)
    unrecorded :
        (a : List Attachment) (answer : Opened)
        → Abandoned ready before (
            opened (open_input P ready session_id input a) answer
            ∷ pushed session_id ready.commit_message
            ∷ stored a
            ∷ before)

  module _ (before : List ReviewStep) (ready : Ready) where
    abbrev pub IsCreated : Opened → Host W ReviewStep → Type 0
    IsCreated answer h = (a : List Attachment) × (h.steps ≡ created ready a answer before)

    abbrev pub IsAbandoned : ReviewError E → Host W ReviewStep → Type 0
    IsAbandoned e h = (h.steps ≡ before) ⊎ Abandoned ready before h.steps

    -- What the clean-up answers.
    cleaned : List Attachment → W → Removal Attachment × W × Result E (Unit {0})
    cleaned = remove P.delete_object P.delete_by_ids attachment_id

    IsOpened : List Attachment → Opened → Host W ReviewStep → Type 0
    IsOpened a answer h =
        h.steps
        ≡ opened (open_input P ready session_id input a) answer
          ∷ pushed session_id ready.commit_message
          ∷ stored a
          ∷ before

module _ {W File E : Type 0} (P : ReviewPorts W File E) (session_id : String) (actor : Identity)
    (input : ReviewInput) (h : Host W ReviewStep) where
  abbrev pub Answered : Opened → Host W ReviewStep → Type 0
  Answered answer after =
      (ready : Ready) × MayCreate P session_id actor input h.world ready
      × IsCreated P session_id actor input h.steps ready answer after

  abbrev pub Refused : ReviewError E → Host W ReviewStep → Type 0
  Refused e after =
      (after.steps ≡ h.steps)
      ⊎ ((ready : Ready) × MayCreate P session_id actor input h.world ready
          × Abandoned P session_id actor input ready h.steps after.steps)

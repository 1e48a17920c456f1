-- ===== src/Prompt/Effects.antt =====
-- What the prompt runner asks of the code around it, and the monad of its asynchronous calls: the
-- outside world, the effects so far in their order, and a value or a thrown error.
use pair_dock.Prelude.{String, Bool, Option, List, [], ◌∷◌, ◌++◌, Result, ok, err}
use pair_dock.Prelude.Decimal.{ℤ}
use pair_dock.Protocol.Checks.{ChecksResult}

pub data Failure : Type 0 where
  thrown : (message : String) → Failure
  no_final_done : (session_id : String) → Failure

-- An event of the agent harness.
pub data HarnessEvent : Type 0 where
  output : (stream : String) → (kind : Option String) → (text : String) → HarnessEvent
  finished : (exit_code : ℤ) → HarnessEvent

pub record RunPromptInput : Type 0 where
  pub session_id : String
  pub project_key : String
  pub prompt : String
  pub image_paths : List String
  pub model_id : String
  pub reasoning_effort : String
  pub worktree_path : String

pub record RunChecksInput : Type 0 where
  pub project_key : String
  pub preview_url : Option String
  pub session_id : String

pub record CollectedDiff : Type 0 where
  pub diff : String
  pub changed_files : List String
  pub fingerprint : String

-- `PromptExecutionEvent`; the runner announces no status but AGENT_RUNNING.
pub data PromptEvent : Type 0 where
  agent_is_running : (message : Option String) → PromptEvent
  agent_output : (stream : String) → (kind : Option String) → (text : String) → PromptEvent
  agent_done : (exit_code : ℤ) → (changes_detected : Option Bool) → PromptEvent
  git_diff : (diff : String) → (changed_files : List String) → PromptEvent
  checks_result : ChecksResult → PromptEvent

-- What a run has done, as far as others can see it. A run of the harness and one of the checks count
-- from their start, also where they throw.
pub data Effect : Type 0 where
  published : PromptEvent → Effect
  ran_harness : RunPromptInput → Effect
  cancelled_harness : Effect
  began_checks : Effect
  downloaded : Effect
  cleaned_up : Effect

-- `PromptRunnerDependencies`: each call changes the world, and answers or throws. A run of the
-- harness is the events that it yields, with what it throws behind them.
pub record Dependencies : Type 1 where
  pub World : Type 0
  pub run_prompt : RunPromptInput → World → World × List HarnessEvent × Option Failure
  pub cancel : String → World → World × Result Failure (Unit {0})
  pub snapshot : String → World → World × Result Failure String
  pub collect : String → World → World × Result Failure CollectedDiff
  pub download : String → List String → World → World × Result Failure (List String)
  pub cleanup : String → World → World × Result Failure (Unit {0})
  pub run_checks : RunChecksInput → World → World × Result Failure ChecksResult
  pub publish : PromptEvent → World → World × Result Failure (Unit {0})
  pub redact : String → String
  pub build_repair_prompt : ChecksResult → String → String

pub record State (World : Type 0) : Type 0 where
  pub world : World
  pub effects : List Effect

abbrev pub M : Type 0 → Type 0 → Type 0
M W A = State W → State W × Result Failure A

module _ {W : Type 0} where
  abbrev pub note : Effect → State W → State W
  note e st = record st { effects = st.effects ++ e ∷ [] }

  abbrev pub continue {ℓ} :
      {A : Type ℓ} {B : Type 0}
      → State W × Result Failure A
      → (A → M W B)
      → State W × Result Failure B
  continue (st, ok a) next = next a st
  continue (st, err e) next = (st, err e)

  infixl 5 ◌>>=◌ ◌>>◌
  abbrev pub ◌>>=◌ : {A B : Type 0} → M W A → (A → M W B) → M W B
  ◌>>=◌ call next st = continue (call st) next

  abbrev pub ◌>>◌ : {B : Type 0} → M W (Unit {0}) → M W B → M W B
  ◌>>◌ call next st = continue (call st) (λ _. next)

  abbrev pub return : {A : Type 0} → A → M W A
  return a st = (st, ok a)

  abbrev pub throw : {A : Type 0} → Failure → M W A
  throw e st = (st, err e)

  -- The answer of a call, with the effect that it has when it does not throw.
  abbrev pub answered :
      {A : Type 0} → State W → (A → List Effect) → W × Result Failure A → State W × Result Failure A
  answered st seen (w, ok a) = (record { world = w; effects = st.effects ++ seen a }, ok a)
  answered st seen (w, err e) = (record st { world = w }, err e)

  abbrev pub call : {A : Type 0} → (A → List Effect) → (W → W × Result Failure A) → M W A
  call seen ask st = answered st seen (ask st.world)

  -- A call whose effect is there once it begins, whether it answers or throws.
  abbrev pub begun : {A : Type 0} → Effect → (W → W × Result Failure A) → M W A
  begun e ask st = answered (note e st) (λ _. []) (ask st.world)

  -- `try { … } finally { … }`, where the second part catches its own errors.
  abbrev pub behind :
      {A : Type 0} → State W × Result Failure A → (State W → State W) → State W × Result Failure A
  behind (st, result) closing = (closing st, result)

  abbrev pub finally : {A : Type 0} → M W A → (State W → State W) → M W A
  finally call closing st = behind (call st) closing

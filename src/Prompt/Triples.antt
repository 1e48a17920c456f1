-- ===== src/Prompt/Triples.antt =====
-- Rules for statements of this kind: from a session in status `s`, the effects of a call are
-- accepted by the API, and where the call returns, its value and the new status satisfy `Q`.
use mathlib.Core.List.{append-nil}
use pair_dock.Prelude.{
  ℕ, String, Bool, true, false, Option, none, some, List, [], ◌∷◌, ◌++◌, ◌≡◌, refl, subst, sym,
  Result, ok, err, if◌then◌else◌,
}
use pair_dock.Prelude.Decimal.{ℤ}
use pair_dock.Domain.Status.{SessionStatus}
use pair_dock.Prompt.Effects.{
  Failure, HarnessEvent, output, finished, RunPromptInput, PromptEvent, agent_output, Effect,
  published, ran_harness, cancelled_harness, Dependencies, State, M, continue, ◌>>=◌, return, throw,
  answered, call, note, begun,
}
use pair_dock.Prompt.Runner.{publish, consume, raise, after_stream, read_stream, run_harness}
use pair_dock.Prompt.Api.{Api, react, react_effect, At, extend, react-output}

-- The value is of no matter, and the status is this.
abbrev pub In {ℓ} : {A : Type ℓ} → SessionStatus → A → SessionStatus → Type 0
In t a u = u ≡ t

module _ (useful_line : String → Option String) (now : ℕ) (start : Api) where
  abbrev AtStatus : SessionStatus → List Effect → Type 0
  AtStatus = At useful_line now start

  -- An effect that the API does not see.
  abbrev pub IsQuiet : Effect → Type 0
  IsQuiet e = (api : Api) → react_effect useful_line now api e ≡ ok api

  pub silent-At :
      {s : SessionStatus} (effects : List Effect) (e : Effect)
      → IsQuiet e
      → AtStatus s effects
      → AtStatus s (effects ++ e ∷ [])
  silent-At effects e quiet at =
      extend useful_line now start effects e at at.api (quiet at.api) at.status

  module _ {W : Type 0} where
    abbrev pub Holds {ℓ} :
        {A : Type ℓ} → (A → SessionStatus → Type 0) → State W × Result Failure A → Type 0
    Holds Q (st, ok a) = (u : SessionStatus) × AtStatus u st.effects × Q a u
    Holds Q (st, err e) = (u : SessionStatus) × AtStatus u st.effects

    abbrev pub Leads : {A : Type 0} → SessionStatus → M W A → (A → SessionStatus → Type 0) → Type 0
    Leads s m Q = (st : State W) → AtStatus s st.effects → Holds Q (m st)

    module _ {A B : Type 0} (Q : A → SessionStatus → Type 0) (R : B → SessionStatus → Type 0) where
      continue-Holds :
          (p : State W × Result Failure A) (next : A → M W B)
          → Holds Q p
          → ((a : A) (u : SessionStatus) → Q a u → Leads u (next a) R)
          → Holds R (continue p next)
      continue-Holds (st, ok a) next (u, at, q) then_leads = then_leads a u q st at
      continue-Holds (st, err e) next h then_leads = h

      pub >>=-Leads :
          {s : SessionStatus} (m : M W A) (next : A → M W B)
          → Leads s m Q
          → ((a : A) (u : SessionStatus) → Q a u → Leads u (next a) R)
          → Leads s (m >>= next) R
      >>=-Leads m next first then_leads st at = continue-Holds (m st) next (first st at) then_leads

    pub >>=-Leads_in :
        {A B : Type 0} (R : B → SessionStatus → Type 0) {s t : SessionStatus} (m : M W A)
        (next : A → M W B)
        → Leads s m (In t)
        → ((a : A) → Leads t (next a) R)
        → Leads s (m >>= next) R
    >>=-Leads_in {A} {B} R {t} m next first then_leads =
        >>=-Leads (In {A = A} t) R m next first
          (λ a u same. subst (λ v. Leads v (next a) R) (sym same) (then_leads a))

    -- A branch on a test.
    pub if-Leads :
        {A : Type 0} (Q : A → SessionStatus → Type 0) {s : SessionStatus} (b : Bool) (m n : M W A)
        → (b ≡ true → Leads s m Q)
        → (b ≡ false → Leads s n Q)
        → Leads s (if b then m else n) Q
    if-Leads Q true m n yes_case no_case = yes_case refl
    if-Leads Q false m n yes_case no_case = no_case refl

    module _ {A : Type 0} where
      pub return-Leads :
          {s : SessionStatus} (a : A) (Q : A → SessionStatus → Type 0)
          → Q a s
          → Leads s (return a) Q
      return-Leads {s} a Q q st at = (s, at, q)

      quiet-Holds :
          {s : SessionStatus} (st : State W) (e : Effect) (p : W × Result Failure A)
          → IsQuiet e
          → AtStatus s st.effects
          → Holds (In s) (answered st (λ _. e ∷ []) p)
      quiet-Holds {s} st e (w, ok a) quiet at = (s, silent-At st.effects e quiet at, refl)
      quiet-Holds {s} st e (w, err x) quiet at = (s, at)

      -- A call whose effect the API does not see leaves the status as it is.
      pub call-Leads :
          {s : SessionStatus} (e : Effect) (ask : W → W × Result Failure A)
          → IsQuiet e
          → Leads s (call (λ _. e ∷ []) ask) (In s)
      call-Leads e ask quiet st at = quiet-Holds st e (ask st.world) quiet at

      plain-Holds :
          {s : SessionStatus} (st : State W) (p : W × Result Failure A)
          → AtStatus s st.effects
          → Holds (In s) (answered st (λ _. []) p)
      plain-Holds {s} st (w, ok a) at =
          (s, subst (AtStatus s) (sym (append-nil st.effects)) at, refl)
      plain-Holds {s} st (w, err x) at = (s, at)

      pub ask-Leads :
          {s : SessionStatus} (ask : W → W × Result Failure A) → Leads s (call (λ _. []) ask) (In s)
      ask-Leads ask st at = plain-Holds st (ask st.world) at

      -- A call whose effect the API does not see, also where the call throws.
      pub begun-Leads :
          {s : SessionStatus} (e : Effect) (ask : W → W × Result Failure A)
          → IsQuiet e
          → Leads s (begun e ask) (In s)
      begun-Leads e ask quiet st at =
          plain-Holds (note e st) (ask st.world) (silent-At st.effects e quiet at)

    published-Holds :
        (P : SessionStatus → Type 0) {s : SessionStatus} (st : State W) (e : PromptEvent)
        (p : W × Result Failure (Unit {0}))
        → ((api : Api)
            → api.session.status ≡ s
            → (next : Api) × (react useful_line now api e ≡ ok next) × P next.session.status)
        → AtStatus s st.effects
        → Holds (λ _ u. P u) (answered st (λ _. published e ∷ []) p)
    published-Holds P {s} st e (w, ok a) moves at =
        let (next, accepted, status) = moves at.api at.status in
        (
          next.session.status,
          extend useful_line now start st.effects (published e) at next accepted refl,
          status,
        )
    published-Holds P {s} st e (w, err x) moves at = (s, at)

    pub throw-Leads :
        {A : Type 0} {s : SessionStatus} (e : Failure) (Q : A → SessionStatus → Type 0)
        → Leads s (throw e) Q
    throw-Leads {s} e Q st at = (s, at)

  module _ (D : Dependencies) where
    open D use {World}

    -- A published event that the API accepts from this status.
    pub publish-Leads :
        (P : SessionStatus → Type 0) {s : SessionStatus} (e : PromptEvent)
        → ((api : Api)
            → api.session.status ≡ s
            → (next : Api) × (react useful_line now api e ≡ ok next) × P next.session.status)
        → Leads s (publish D e) (λ _ u. P u)
    unfolding publish
    publish-Leads P e moves st at = published-Holds P st e (D.publish e st.world) moves at

    output-Leads :
        {s : SessionStatus} (stream : String) (kind : Option String) (text : String)
        → Leads s (publish D (agent_output stream kind text)) (In s)
    output-Leads {s} stream kind text =
        publish-Leads (λ u. u ≡ s) (agent_output stream kind text)
          (λ api h. (api, react-output useful_line now stream kind text api, h))

    consume-Leads :
        {s : SessionStatus} (events : List HarnessEvent) (code : Option ℤ)
        → Leads s (consume D events code) (In s)
    unfolding consume
    consume-Leads {s} [] code = return-Leads code (In s) refl
    consume-Leads {s} (output stream kind text ∷ events) code =
        >>=-Leads_in (In s) (publish D (agent_output stream kind (D.redact text))) _
          (output-Leads stream kind (D.redact text)) (λ _. consume-Leads events code)
    consume-Leads (finished exit_code ∷ events) code = consume-Leads events (some exit_code)

    raise-Leads :
        {s : SessionStatus} (failure : Option Failure) (code : Option ℤ)
        → Leads s (raise D failure code) (In s)
    raise-Leads {s} none code = return-Leads code (In s) refl
    raise-Leads {s} (some e) code = throw-Leads {A = Option ℤ} e (In s)

    read_stream-Leads :
        {s : SessionStatus} (events : List HarnessEvent) (failure : Option Failure)
        → Leads s (read_stream D events failure) (In s)
    unfolding read_stream
    read_stream-Leads {s} events failure =
        >>=-Leads_in (In s) (consume D events none) (raise D failure) (consume-Leads events none)
          (raise-Leads failure)

    after_stream-Holds :
        (s : SessionStatus) (session_id : String) (p : State World × Result Failure (Option ℤ))
        → Holds (In s) p
        → Holds (In s) (after_stream D session_id p)
    unfolding after_stream
    after_stream-Holds s session_id (st, ok (some code)) h = h
    after_stream-Holds s session_id (st, ok none) (u, at, same) = (u, at)
    after_stream-Holds s session_id (st, err e) (u, at) =
        (u, silent-At st.effects cancelled_harness (λ api. refl) at)

    -- A run of the harness leaves the session's status as it is.
    pub run_harness-Leads :
        {s : SessionStatus} (input : RunPromptInput) → Leads s (run_harness D input) (In s)
    unfolding run_harness
    run_harness-Leads {s} input st at =
        let (w, events, failure) = D.run_prompt input st.world in
        let st' : State World = note (ran_harness input) (record st { world = w }) in
        after_stream-Holds s input.session_id (read_stream D events failure st') (
          read_stream-Leads events failure st'
            (silent-At st.effects (ran_harness input) (λ api. refl) at))

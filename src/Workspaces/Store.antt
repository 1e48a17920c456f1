-- ===== src/Workspaces/Store.antt =====
-- packages/local-agent/src/session/file-session-workspace.store.ts: what of a workspace is written.
use pair_dock.Prelude.{
  String, Option, none, some, List, [], ◌∷◌, map, ◌≡◌, refl, sym, ap, ◌∙◌, truthy, if◌then◌else◌,
  Bool-cases, inl, inr, arith, ◌==◌,
}
use pair_dock.Prelude.Dict.{Dict, get, values, AllEntries, Distinct}
use pair_dock.Workspaces.Invariant.{Keyed}
use pair_dock.Workspaces.Sandbox.{SandboxRef, SessionWorkspace}

-- A spread of an optional text, which leaves out an empty one.
abbrev pub written_text : Option String → Option String
written_text none = none
written_text (some text) = if truthy text then some text else none

-- A sandbox is written without its preview configuration.
abbrev pub written_sandbox : Option SandboxRef → Option SandboxRef
written_sandbox none = none
written_sandbox (some ref) = some (record ref { preview_config = none })

-- `toPersistedWorkspace`.
abbrev pub to_persisted_workspace : SessionWorkspace → SessionWorkspace
to_persisted_workspace w = record w {
  model_id = written_text w.model_id;
  sandbox_ref = written_sandbox w.sandbox_ref;
  preview_url = written_text w.preview_url;
}

-- `workspaces.map(toPersistedWorkspace)`.
abbrev pub written : List SessionWorkspace → List SessionWorkspace
written = map to_persisted_workspace

written_text-written_text : (o : Option String) → written_text (written_text o) ≡ written_text o
written_text-written_text none = refl
written_text-written_text (some text) = ground arith

written_sandbox-written_sandbox :
    (o : Option SandboxRef) → written_sandbox (written_sandbox o) ≡ written_sandbox o
written_sandbox-written_sandbox none = refl
written_sandbox-written_sandbox (some ref) = refl

-- What has been written is written again as it is.
pub to_persisted_workspace_idem :
    (w : SessionWorkspace)
    → to_persisted_workspace (to_persisted_workspace w) ≡ to_persisted_workspace w
to_persisted_workspace_idem w =
    rw
      (
        written_text-written_text w.model_id,
        written_sandbox-written_sandbox w.sandbox_ref,
        written_text-written_text w.preview_url,
      )
      refl

-- The written form of an optional workspace.
abbrev pub written_as : Option SessionWorkspace → Option SessionWorkspace
written_as none = none
written_as (some w) = some (to_persisted_workspace w)

-- The map of the written workspaces.
abbrev pub written_map : Dict SessionWorkspace → Dict SessionWorkspace
written_map [] = []
written_map ((k, w) ∷ m) = (k, to_persisted_workspace w) ∷ written_map m

pub values-written_map : (m : Dict SessionWorkspace) → values (written_map m) ≡ written (values m)
values-written_map [] = refl
values-written_map ((k, w) ∷ m) = ap (λ l. to_persisted_workspace w ∷ l) (values-written_map m)

pub get-written_map :
    (i : String) (m : Dict SessionWorkspace) → get i (written_map m) ≡ written_as (get i m)
unfolding get
get-written_map i [] = refl
get-written_map i ((k, w) ∷ m) = elim (Bool-cases (k == i)) [
  | inl same ↦ rw same refl
  | inr other ↦ rw other (get-written_map i m)
]

pub written_map-AllEntries :
    {P : String → SessionWorkspace → Type 0} (m : Dict SessionWorkspace)
    → ((k : String) (w : SessionWorkspace) → P k w → P k (to_persisted_workspace w))
    → AllEntries P m
    → AllEntries P (written_map m)
written_map-AllEntries [] f h = tt
written_map-AllEntries ((k, w) ∷ m) f (p, h) = (f k w p, written_map-AllEntries m f h)

pub written_map-Distinct : (m : Dict SessionWorkspace) → Distinct m → Distinct (written_map m)
written_map-Distinct [] d = tt
written_map-Distinct ((k, w) ∷ m) (fresh, d) =
    (written_map-AllEntries m (λ j v other. other) fresh, written_map-Distinct m d)

written_as-Keyed :
    (i : String) (o : Option SessionWorkspace)
    → ((w : SessionWorkspace) → o ≡ some w → w.session_id ≡ i)
    → (v : SessionWorkspace) → written_as o ≡ some v
    → v.session_id ≡ i
written_as-Keyed i none k v h = cc
written_as-Keyed i (some w) k v h = ground (arith, k w refl)

pub written_map-Keyed : (m : Dict SessionWorkspace) → Keyed m → Keyed (written_map m)
written_map-Keyed m keyed i v h =
    written_as-Keyed i (get i m) (keyed i) v (sym (get-written_map i m) ∙ h)

-- ===== src/Workspaces/Invariant.antt =====
-- What every state of the registry has: active workspaces are persisted ones, filed under their
-- own session, and an operation that waits for the store can be undone.
use pair_dock.Prelude.{String, true, false, none, some, ◌≡◌, refl, eq_iff, arith}
use pair_dock.Prelude.Dict.{
  Dict, get, set, delete, get-set, get-delete, Distinct, set-Distinct, delete-Distinct,
}
use pair_dock.Workspaces.Sandbox.{SessionWorkspace}
use pair_dock.Workspaces.{
  SessionRegistry, Undo, undo_register, undo_update, undo_unregister, suspend, undo,
}

abbrev pub Agrees : SessionRegistry → Type 0
Agrees r =
    (i : String) (w : SessionWorkspace)
    → get i r.workspaces ≡ some w
    → get i r.persisted_workspaces ≡ some w

abbrev pub Keyed : Dict SessionWorkspace → Type 0
Keyed m = (i : String) (w : SessionWorkspace) → get i m ≡ some w → w.session_id ≡ i

-- An undo fits a registry: it puts back a workspace of that session, and what it leaves inactive
-- is inactive.
abbrev pub Fits : Undo → SessionRegistry → Type 0
Fits (undo_register id none _) r = Unit
Fits (undo_register id (some previous) _) r = previous.session_id ≡ id
Fits (undo_update id previous true) r = previous.session_id ≡ id
Fits (undo_update id previous false) r = (previous.session_id ≡ id) × (get id r.workspaces ≡ none)
Fits (undo_unregister id workspace _) r = (workspace.session_id ≡ id) × (get id r.workspaces ≡ none)

pub set-Keyed :
    (w : SessionWorkspace) (id : String) (m : Dict SessionWorkspace)
    → w.session_id ≡ id
    → Keyed m
    → Keyed (set id w m)
set-Keyed w id m own k i v h = ground (arith, get-set id i w m, eq_iff id i, k i v)

pub delete-Keyed : (id : String) (m : Dict SessionWorkspace) → Keyed m → Keyed (delete id m)
delete-Keyed id m k i v h = ground (arith, get-delete id i m, k i v)

-- Both maps are written, one is, or both forget.
pub set-Agrees :
    (id : String) (w : SessionWorkspace) (r : SessionRegistry)
    → Agrees r
    → Agrees (record {
      workspaces = set id w r.workspaces;
      persisted_workspaces = set id w r.persisted_workspaces;
    })
set-Agrees id w r a i v h =
    ground (arith, get-set id i w r.workspaces, get-set id i w r.persisted_workspaces, a i v)

module _ (id : String) (r : SessionRegistry) (a : Agrees r) where
  pub persist-Agrees :
      (w : SessionWorkspace)
      → get id r.workspaces ≡ none
      → Agrees (record r { persisted_workspaces = set id w r.persisted_workspaces })
  persist-Agrees w quiet i v h =
      ground (arith, get-set id i w r.persisted_workspaces, a i v, eq_iff id i)

  quiet-Agrees :
      (w : SessionWorkspace)
      → Agrees (record {
        workspaces = delete id r.workspaces;
        persisted_workspaces = set id w r.persisted_workspaces;
      })
  quiet-Agrees w i v h =
      ground (arith, get-delete id i r.workspaces, get-set id i w r.persisted_workspaces, a i v)

  pub delete-Agrees : Agrees (record {
    workspaces = delete id r.workspaces;
    persisted_workspaces = delete id r.persisted_workspaces;
  })
  delete-Agrees i v h =
      ground (arith, get-delete id i r.workspaces, get-delete id i r.persisted_workspaces, a i v)

  pub suspend-Agrees : Agrees (suspend id r)
  unfolding suspend
  suspend-Agrees i v h = ground (arith, get-delete id i r.workspaces, a i v)

pub undo-Agrees : (u : Undo) (r : SessionRegistry) → Agrees r → Fits u r → Agrees (undo u r)
unfolding undo
undo-Agrees (undo_register id none b) r a f = delete-Agrees id r a
undo-Agrees (undo_register id (some p) true) r a f = set-Agrees id p r a
undo-Agrees (undo_register id (some p) false) r a f = quiet-Agrees id r a p
undo-Agrees (undo_update id p true) r a f = set-Agrees id p r a
undo-Agrees (undo_update id p false) r a f = persist-Agrees id r a p f.1
undo-Agrees (undo_unregister id w true) r a f = set-Agrees id w r a
undo-Agrees (undo_unregister id w false) r a f = persist-Agrees id r a w f.1

pub undo-Keyed :
    (u : Undo) (r : SessionRegistry)
    → Keyed r.persisted_workspaces
    → Fits u r
    → Keyed (undo u r).persisted_workspaces
unfolding undo
undo-Keyed (undo_register id none b) r k f = delete-Keyed id r.persisted_workspaces k
undo-Keyed (undo_register id (some p) b) r k f = set-Keyed p id r.persisted_workspaces f k
undo-Keyed (undo_update id p true) r k f = set-Keyed p id r.persisted_workspaces f k
undo-Keyed (undo_update id p false) r k f = set-Keyed p id r.persisted_workspaces f.0 k
undo-Keyed (undo_unregister id w b) r k f = set-Keyed w id r.persisted_workspaces f.0 k

pub undo-Distinct :
    (u : Undo) (r : SessionRegistry)
    → Distinct r.persisted_workspaces
    → Distinct (undo u r).persisted_workspaces
unfolding undo
undo-Distinct (undo_register id none b) r d = delete-Distinct id r.persisted_workspaces d
undo-Distinct (undo_register id (some p) b) r d = set-Distinct id p r.persisted_workspaces d
undo-Distinct (undo_update id p b) r d = set-Distinct id p r.persisted_workspaces d
undo-Distinct (undo_unregister id w b) r d = set-Distinct id w r.persisted_workspaces d

-- A suspension keeps an undo fitting, and does not touch what it would leave on disk.
pub suspend-Fits : (i : String) (u : Undo) (r : SessionRegistry) → Fits u r → Fits u (suspend i r)
unfolding suspend
suspend-Fits i (undo_register id none b) r f = tt
suspend-Fits i (undo_register id (some p) b) r f = f
suspend-Fits i (undo_update id p true) r f = f
suspend-Fits i (undo_update id p false) r f =
    (f.0, ground (arith, get-delete i id r.workspaces, f.1))
suspend-Fits i (undo_unregister id w b) r f =
    (f.0, ground (arith, get-delete i id r.workspaces, f.1))

pub undo-suspend :
    (i : String) (u : Undo) (r : SessionRegistry)
    → (undo u (suspend i r)).persisted_workspaces ≡ (undo u r).persisted_workspaces
unfolding undo suspend
undo-suspend i (undo_register id none b) r = refl
undo-suspend i (undo_register id (some p) b) r = refl
undo-suspend i (undo_update id p b) r = refl
undo-suspend i (undo_unregister id w b) r = refl

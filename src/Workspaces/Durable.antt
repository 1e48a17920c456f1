-- ===== src/Workspaces/Durable.antt =====
-- Every state that an interleaving of the registry's operations leads to, and what is on disk then.
use pair_dock.Prelude.{
  String, true, false, none, List, ◌∷◌, All, some, [], ◌≡◌, refl, sym, ◌∙◌, ap, ◌==◌, inl, inr,
  Bool-cases, Option-cases, arith, subst, eq_refl,
}
use pair_dock.Prelude.Dict.{get, values, get-set, get-delete, AllEntries, get-AllEntries}
use pair_dock.Workspaces.Sandbox.{SessionWorkspace}
use pair_dock.Workspaces.{
  find_active, find_persisted, begin_register, begin_update, begin_unregister, update_known, drop,
  suspend, undo, restore,
}
use pair_dock.Workspaces.Machine.{
  Saving, Machine, Event, restores, registers, updates, unregisters, suspends, save_ends, hold,
  settle, begin, meanwhile, step, Reachable, restart, after, by_session,
}
use pair_dock.Workspaces.Begin.{
  begin_register-HasBegun, update_known-HasBegun, drop-HasBegun, IsSound,
}
use pair_dock.Workspaces.Restore.{on_disk, on_disk-values, get-restore, restore-IsSound}
use pair_dock.Workspaces.Store.{to_persisted_workspace, written_as}
use pair_dock.Workspaces.Invariant.{Keyed}
use pair_dock.Workspaces.Steps.{
  IsGood, Waits, hold-IsGood, restore-IsGood, settle-IsGood, suspend-IsGood,
}

begin-IsGood :
    (e : Event) (m m' : Machine) → m.saving ≡ none → IsGood m → begin e m ≡ some m' → IsGood m'
unfolding begin begin_update begin_unregister
begin-IsGood (restores false) m m' free g h = subst IsGood (ground arith) g
begin-IsGood (restores true) m m' free g h = subst IsGood (ground arith) (restore-IsGood m free g)
begin-IsGood (registers w) m m' free g h = subst IsGood (ground arith) (
    hold-IsGood m (begin_register w m.registry) free g
      (begin_register-HasBegun m.registry g.sound w))
begin-IsGood (updates w) m m' free g h =
    elim (Option-cases (find_persisted w.session_id m.registry)) [
      | inl missing ↦ subst IsGood (ground arith) g
      | inr (p, known) ↦ subst IsGood (ground arith) (
          hold-IsGood m (update_known w p m.registry) free g
            (update_known-HasBegun m.registry g.sound w p known))
    ]
begin-IsGood (unregisters id) m m' free g h = elim (Option-cases (find_persisted id m.registry)) [
  | inl missing ↦ subst IsGood (ground arith) g
  | inr (w, known) ↦
      subst IsGood (ground arith)
        (hold-IsGood m (drop id w m.registry) free g (drop-HasBegun m.registry g.sound id w known))
]
begin-IsGood (suspends id) m m' free g h = subst IsGood (ground arith) (suspend-IsGood m id g)
begin-IsGood (save_ends saved) m m' free g h = cc

meanwhile-IsGood :
    (e : Event) (m m' : Machine) (s : Saving)
    → m.saving ≡ some s
    → IsGood m
    → meanwhile e s m ≡ some m'
    → IsGood m'
unfolding meanwhile
meanwhile-IsGood (suspends id) m m' s held g h = subst IsGood (ground arith) (suspend-IsGood m id g)
meanwhile-IsGood (save_ends saved) m m' s held g h =
    subst IsGood (ground arith) (settle-IsGood m s saved held g)
meanwhile-IsGood (restores loaded) m m' s held g h = cc
meanwhile-IsGood (registers w) m m' s held g h = cc
meanwhile-IsGood (updates w) m m' s held g h = cc
meanwhile-IsGood (unregisters id) m m' s held g h = cc

values-by_session : (disk : List SessionWorkspace) → values (by_session disk) ≡ disk
values-by_session [] = refl
values-by_session (w ∷ disk) = ap (λ l. w ∷ l) (values-by_session disk)

by_session-own :
    (disk : List SessionWorkspace) → AllEntries (λ k w. w.session_id ≡ k) (by_session disk)
by_session-own [] = tt
by_session-own (w ∷ disk) = (refl, by_session-own disk)

stays_written :
    (i : String) (disk : List SessionWorkspace)
    → All (λ w. to_persisted_workspace w ≡ w) disk
    → written_as (get i (by_session disk)) ≡ get i (by_session disk)
unfolding get
stays_written i [] h = refl
stays_written i (w ∷ disk) (p, h) = elim (Bool-cases (w.session_id == i)) [
  | inl same ↦ rw same (ap some p)
  | inr other ↦ rw other (stays_written i disk h)
]

Reachable-IsGood : (m : Machine) → Reachable m → IsGood m
unfolding step get
Reachable-IsGood m (restart disk h) =
    let own : Keyed (by_session disk) = λ i w found.
      get-AllEntries (λ k v. v.session_id ≡ k) i (by_session disk) (by_session-own disk) found in
    let plain : (i : String) → written_as (get i (by_session disk)) ≡ get i (by_session disk) =
      λ i. stays_written i disk h.plain in
    record {
      sound =
          subst IsSound (ap restore (values-by_session disk))
            (restore-IsSound (by_session disk) h.distinct own);
      stored = by_session disk;
      stores = record {
        keyed = own;
        distinct = h.distinct;
        plain = plain;
        contents = sym (values-by_session disk);
      };
      waits = λ i. sym (
          ap (λ l. written_as (find_persisted i (restore l))) (sym (values-by_session disk))
          ∙ ap written_as (get-restore (by_session disk) h.distinct own i)
          ∙ plain i);
    }
Reachable-IsGood m (after {m = before} r e h) = elim (Option-cases before.saving) [
  | inl free ↦ begin-IsGood e before m free (Reachable-IsGood before r) (ground arith)
  | inr (s, held) ↦ meanwhile-IsGood e before m s held (Reachable-IsGood before r) (ground arith)
]

-- From a restart over any disk that the store's schema accepts, and however registrations, updates,
-- removals and restores, whose saves and loads may fail, interleave with suspensions: an active
-- workspace is the persisted one of its session, and whenever no operation waits for the store, the
-- disk holds, for each session, what the store writes of its persisted workspace, and nothing else.
pub Reachable-agrees :
    (m : Machine)
    → Reachable m
    → ((id : String) (w : SessionWorkspace)
        → find_active id m.registry ≡ some w
        → find_persisted id m.registry ≡ some w)
      × (m.saving ≡ none
          → (id : String) → on_disk id m.disk ≡ written_as (find_persisted id m.registry))
Reachable-agrees m r =
    let g = Reachable-IsGood m r in
    let s = g.stores in
    (
      g.sound.agrees,
      λ free id.
          let waits : (i : String) → get i g.stored ≡ written_as (find_persisted i m.registry) =
            rw free at g.waits in
          rw s.contents (on_disk-values g.stored id s.distinct s.keyed ∙ waits id),
    )

-- In every state that an interleaving leads to, from a restart over any disk that the store's schema
-- accepts, and in which an operation waits for the store: a save that fails leaves the disk as it
-- is, and the persisted workspaces are again those of which the disk holds what the store writes,
-- whatever was suspended while the operation waited.
pub failed_save-restores :
    (m : Machine) (s : Saving)
    → Reachable m
    → m.saving ≡ some s
    → (m' : Machine) × (step (save_ends false) m ≡ some m')
      × (m'.saving ≡ none)
      × ((id : String) → on_disk id m.disk ≡ written_as (find_persisted id m'.registry))
      × (m'.disk ≡ m.disk)
unfolding step meanwhile
failed_save-restores m s r held =
    let g = Reachable-IsGood m r in
    let (contents, fits, left) : Waits (some s) m.registry g.stored = rw held at g.waits in
    (
      settle m s false,
      rw held refl,
      refl,
      λ id.
          rw g.stores.contents
            (on_disk-values g.stored id g.stores.distinct g.stores.keyed ∙ left id),
      refl,
    )

-- A session that is active and persisted with the same workspace, and is suspended while its
-- update waits for the store, is active again, with that workspace, once the save fails.
pub suspended_update-revives :
    (m : Machine) (w p : SessionWorkspace)
    → m.saving ≡ none
    → find_active w.session_id m.registry ≡ some p
    → find_persisted w.session_id m.registry ≡ some p
    → (m1 m2 m3 : Machine) × (step (updates w) m ≡ some m1)
      × (step (suspends w.session_id) m1 ≡ some m2)
      × (find_active w.session_id m2.registry ≡ none)
      × (step (save_ends false) m2 ≡ some m3)
      × (find_active w.session_id m3.registry ≡ some p)
unfolding step begin meanwhile begin_update suspend undo
suspended_update-revives m w p free active known =
    let m1 = hold m (update_known w p m.registry) in
    let m2 = record m1 { registry = suspend w.session_id m1.registry } in
    (
      m1,
      m2,
      settle m2
          (record {
            undo = (update_known w p m.registry).1;
            contents = values (update_known w p m.registry).0.persisted_workspaces;
          })
          false,
      ground (arith, free, known),
      refl,
      rw (get-delete w.session_id w.session_id m1.registry.workspaces, eq_refl w.session_id) refl,
      refl,
      ground (
        arith,
        active,
        get-set w.session_id w.session_id p m2.registry.workspaces,
        eq_refl w.session_id,
      ),
    )

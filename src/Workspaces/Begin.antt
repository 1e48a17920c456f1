-- ===== src/Workspaces/Begin.antt =====
-- The first half of each locked operation: it keeps the maps well formed, and its undo leads back
-- to what was persisted.
use pair_dock.Prelude.{
  String, false, none, some, ◌≡◌, refl, inl, inr, Bool-cases, Option-cases, eq_iff, eq_refl, arith,
}
use pair_dock.Prelude.Dict.{
  get, set, delete, get-set, get-delete, Distinct, set-Distinct, delete-Distinct,
}
use pair_dock.Workspaces.Sandbox.{SessionWorkspace}
use pair_dock.Workspaces.{
  SessionRegistry, Undo, find_persisted, is_active, begin_register, update_known, drop, undo,
}
use pair_dock.Workspaces.Invariant.{
  Agrees, Keyed, Fits, set-Keyed, delete-Keyed, set-Agrees, persist-Agrees, delete-Agrees,
}

-- The maps of a registry are well formed.
pub record IsSound (r : SessionRegistry) : Type 0 where
  pub agrees : Agrees r
  pub keyed : Keyed r.persisted_workspaces
  pub distinct : Distinct r.persisted_workspaces

-- What holds once a locked operation has handed its workspaces to the store.
pub record HasBegun (before : SessionRegistry) (held : SessionRegistry × Undo) : Type 0 where
  pub sound : IsSound held.0
  pub fits : Fits held.1 held.0
  pub undoes : (i : String) → find_persisted i (undo held.1 held.0) ≡ find_persisted i before

-- An update of an inactive session does not touch the active ones.
quiet : (id : String) (r : SessionRegistry) → is_active id r ≡ false → get id r.workspaces ≡ none
quiet id r h = ground arith

module _ (r : SessionRegistry) (c : IsSound r) where
  pub begin_register-HasBegun : (w : SessionWorkspace) → HasBegun r (begin_register w r)
  unfolding begin_register undo
  begin_register-HasBegun w = record {
    sound = record {
      agrees = set-Agrees w.session_id w r c.agrees;
      keyed = set-Keyed w w.session_id r.persisted_workspaces refl c.keyed;
      distinct = set-Distinct w.session_id w r.persisted_workspaces c.distinct;
    };
    fits = elim (Option-cases (find_persisted w.session_id r)) [
      | inl e ↦ rw e tt
      | inr (p, e) ↦ rw e (c.keyed w.session_id p e)
    ];
    undoes = λ i. elim (Option-cases (find_persisted w.session_id r)) [
      | inl e ↦ ground (
        arith,
        e,
        get-delete w.session_id i (set w.session_id w r.persisted_workspaces),
        get-set w.session_id i w r.persisted_workspaces,
        eq_iff w.session_id i,
      )
      | inr (p, e) ↦ ground (
        arith,
        e,
        get-set w.session_id i p (set w.session_id w r.persisted_workspaces),
        get-set w.session_id i w r.persisted_workspaces,
        eq_iff w.session_id i,
      )
    ];
  }

  pub update_known-HasBegun :
      (w p : SessionWorkspace)
      → find_persisted w.session_id r ≡ some p
      → HasBegun r (update_known w p r)
  unfolding undo
  update_known-HasBegun w p e = record {
    sound = record {
      agrees = elim (Bool-cases (is_active w.session_id r)) [
        | inl active ↦ rw active (set-Agrees w.session_id w r c.agrees)
        | inr inactive ↦
            rw inactive (persist-Agrees w.session_id r c.agrees w (quiet w.session_id r inactive))
      ];
      keyed = set-Keyed w w.session_id r.persisted_workspaces refl c.keyed;
      distinct = set-Distinct w.session_id w r.persisted_workspaces c.distinct;
    };
    fits = elim (Bool-cases (is_active w.session_id r)) [
      | inl active ↦ rw active (c.keyed w.session_id p e)
      | inr inactive ↦ rw inactive (c.keyed w.session_id p e, quiet w.session_id r inactive)
    ];
    undoes = λ i. ground (
      arith,
      e,
      get-set w.session_id i p (set w.session_id w r.persisted_workspaces),
      get-set w.session_id i w r.persisted_workspaces,
      eq_iff w.session_id i,
    );
  }

  pub drop-HasBegun :
      (id : String) (w : SessionWorkspace) → find_persisted id r ≡ some w → HasBegun r (drop id w r)
  unfolding undo
  drop-HasBegun id w e = record {
    sound = record {
      agrees = delete-Agrees id r c.agrees;
      keyed = delete-Keyed id r.persisted_workspaces c.keyed;
      distinct = delete-Distinct id r.persisted_workspaces c.distinct;
    };
    fits = (c.keyed id w e, rw (get-delete id id r.workspaces, eq_refl id) refl);
    undoes = λ i. ground (
      arith,
      e,
      get-set id i w (delete id r.persisted_workspaces),
      get-delete id i r.persisted_workspaces,
      eq_iff id i,
    );
  }

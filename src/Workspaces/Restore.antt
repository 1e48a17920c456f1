-- ===== src/Workspaces/Restore.antt =====
-- `restore` reads back what `persist` has written.
use pair_dock.Prelude.{
  String, Option, none, some, List, [], ◌∷◌, ◌==◌, ◌≡◌, ◌≢◌, refl, sym, ◌∙◌, inl, inr, find,
  Option-cases, eq_iff, eq_refl, arith,
}
use pair_dock.Prelude.Dict.{
  Dict, get, set, values, get-set, Distinct, Fresh, set-Distinct, get-AllEntries,
}
use pair_dock.Workspaces.Sandbox.{SessionWorkspace}
use pair_dock.Workspaces.{fill, restore}
use pair_dock.Workspaces.Invariant.{Keyed}
use pair_dock.Workspaces.Begin.{IsSound}

-- The workspace of a session in what the store holds.
abbrev pub on_disk : String → List SessionWorkspace → Option SessionWorkspace
on_disk id = find (λ w. w.session_id == id)

-- An entry whose key comes first is no entry of the rest.
Fresh-none : (k : String) (m : Dict SessionWorkspace) → Fresh k m → get k m ≡ none
Fresh-none k m fresh = elim (Option-cases (get k m)) [
  | inl e ↦ e
  | inr (w, e) ↦ absurd (get-AllEntries (λ j v. j ≢ k) k m fresh e refl)
]

rest-Keyed :
    (k : String) (w : SessionWorkspace) (m : Dict SessionWorkspace)
    → Fresh k m
    → Keyed ((k, w) ∷ m)
    → Keyed m
unfolding get
rest-Keyed k w m fresh keyed i v h = ground (arith, keyed i v, Fresh-none k m fresh, eq_iff k i)

head-Keyed :
    (k : String) (w : SessionWorkspace) (m : Dict SessionWorkspace)
    → Keyed ((k, w) ∷ m)
    → w.session_id ≡ k
unfolding get
head-Keyed k w m keyed = keyed k w (rw (eq_refl k) refl)

pub on_disk-values :
    (m : Dict SessionWorkspace) (i : String) → Distinct m → Keyed m → on_disk i (values m) ≡ get i m
unfolding get
on_disk-values [] i d k = refl
on_disk-values ((j, w) ∷ m) i (fresh, d) k =
    rw (head-Keyed j w m k, on_disk-values m i d (rest-Keyed j w m fresh k)) refl

pub fill-values :
    (m acc : Dict SessionWorkspace) (i : String)
    → Distinct m
    → Keyed m
    → get i (fill (values m) acc) ≡ (elim (get i m) [ some w ↦ some w | none ↦ get i acc ])
unfolding get fill
fill-values [] acc i d k = refl
fill-values ((j, w) ∷ m) acc i (fresh, d) k =
    let own : w.session_id ≡ j = head-Keyed j w m k in
    ground (
      arith,
      own,
      fill-values m (set w.session_id w acc) i d (rest-Keyed j w m fresh k),
      get-set w.session_id i w acc,
      Fresh-none j m fresh,
      eq_iff j i,
    )

pub fill-Distinct :
    (stored : List SessionWorkspace) (acc : Dict SessionWorkspace)
    → Distinct acc
    → Distinct (fill stored acc)
unfolding fill
fill-Distinct [] acc d = d
fill-Distinct (w ∷ stored) acc d =
    fill-Distinct stored (set w.session_id w acc) (set-Distinct w.session_id w acc d)

module _ (m : Dict SessionWorkspace) (d : Distinct m) (k : Keyed m) where
  pub get-restore : (i : String) → get i (restore (values m)).persisted_workspaces ≡ get i m
  unfolding restore get
  get-restore i = ground (arith, fill-values m [] i d k)

  pub restore-IsSound : IsSound (restore (values m))
  unfolding restore
  restore-IsSound = record {
    agrees = λ i w h. h;
    keyed = λ i w h. k i w (sym (get-restore i) ∙ h);
    distinct = fill-Distinct (values m) [] tt;
  }

-- ===== src/Workspaces/Steps.antt =====
-- Each step of the registry's machine keeps its maps well formed and its undo at hand.
use pair_dock.Prelude.{String, Bool, true, false, Option, none, some, List, ◌≡◌, refl, sym, ap, ◌∙◌}
use pair_dock.Prelude.Dict.{Dict, get, values, Distinct}
use pair_dock.Workspaces.Sandbox.{SessionWorkspace}
use pair_dock.Workspaces.Store.{
  to_persisted_workspace_idem, written, written_as, written_map, values-written_map,
  get-written_map, written_map-Distinct, written_map-Keyed,
}
use pair_dock.Workspaces.{
  SessionRegistry, Undo, find_persisted, list_persisted, restore, suspend, undo,
}
use pair_dock.Workspaces.Machine.{Saving, Machine, hold, settle}
use pair_dock.Workspaces.Invariant.{
  Keyed, Fits, undo-Agrees, undo-Keyed, undo-Distinct, suspend-Agrees, suspend-Fits, undo-suspend,
}
use pair_dock.Workspaces.Begin.{IsSound, HasBegun}
use pair_dock.Workspaces.Restore.{get-restore, restore-IsSound}

-- The store holds the values of this well-formed map.
pub record Stores (disk : List SessionWorkspace) (stored : Dict SessionWorkspace) : Type 0 where
  pub keyed : Keyed stored
  pub distinct : Distinct stored
  pub plain : (i : String) → written_as (get i stored) ≡ get i stored
  pub contents : disk ≡ values stored

-- With a free lock the disk holds what is persisted; behind an operation that waits for the store,
-- what its undo would leave persisted.
abbrev pub Waits : Option Saving → SessionRegistry → Dict SessionWorkspace → Type 0
Waits none r stored = (i : String) → get i stored ≡ written_as (find_persisted i r)
Waits (some s) r stored =
    (s.contents ≡ list_persisted r)
    × Fits s.undo r
    × ((i : String) → get i stored ≡ written_as (find_persisted i (undo s.undo r)))

pub record IsGood (m : Machine) : Type 0 where
  pub sound : IsSound m.registry
  pub stored : Dict SessionWorkspace
  pub stores : Stores m.disk stored
  pub waits : Waits m.saving m.registry stored

suspend-IsSound : (id : String) (r : SessionRegistry) → IsSound r → IsSound (suspend id r)
unfolding suspend
suspend-IsSound id r c = record {
  agrees = suspend-Agrees id r c.agrees;
  keyed = c.keyed;
  distinct = c.distinct;
}

-- An operation that begins over a machine with a free lock.
pub hold-IsGood :
    (m : Machine) (held : SessionRegistry × Undo)
    → m.saving ≡ none
    → IsGood m
    → HasBegun m.registry held
    → IsGood (hold m held)
hold-IsGood m (r, u) free g b =
    let waits : (i : String) → get i g.stored ≡ written_as (find_persisted i m.registry) =
      rw free at g.waits in
    record {
      sound = b.sound;
      stored = g.stored;
      stores = g.stores;
      waits = (refl, b.fits, λ i. waits i ∙ sym (ap written_as (b.undoes i)));
    }

pub restore-IsGood :
    (m : Machine) → m.saving ≡ none → IsGood m → IsGood (record m { registry = restore m.disk })
restore-IsGood m free g =
    let s = g.stores in
    rw s.contents (record {
      sound = restore-IsSound g.stored s.distinct s.keyed;
      stored = g.stored;
      stores = record { keyed = s.keyed; distinct = s.distinct; plain = s.plain; contents = refl };
      waits =
          rw free
            (λ i. sym (ap written_as (get-restore g.stored s.distinct s.keyed i) ∙ s.plain i));
    })

written_as_idem : (o : Option SessionWorkspace) → written_as (written_as o) ≡ written_as o
written_as_idem none = refl
written_as_idem (some w) = ap some (to_persisted_workspace_idem w)

-- What a save of the values of a map leaves on disk.
pub written-Stores :
    (m : Dict SessionWorkspace)
    → Keyed m
    → Distinct m
    → (contents : List SessionWorkspace) → contents ≡ values m
    → Stores (written contents) (written_map m)
written-Stores m keyed distinct contents same = record {
  keyed = written_map-Keyed m keyed;
  distinct = written_map-Distinct m distinct;
  plain = λ i. rw (get-written_map i m) (written_as_idem (get i m));
  contents = ap written same ∙ sym (values-written_map m);
}

pub settle-IsGood :
    (m : Machine) (s : Saving) (saved : Bool)
    → m.saving ≡ some s
    → IsGood m
    → IsGood (settle m s saved)
settle-IsGood m s true held g =
    let (contents, fits, left) : Waits (some s) m.registry g.stored = rw held at g.waits in
    record {
      sound = g.sound;
      stored = written_map m.registry.persisted_workspaces;
      stores =
          written-Stores m.registry.persisted_workspaces g.sound.keyed g.sound.distinct s.contents
            contents;
      waits = λ i. get-written_map i m.registry.persisted_workspaces;
    }
settle-IsGood m s false held g =
    let (contents, fits, left) : Waits (some s) m.registry g.stored = rw held at g.waits in
    record {
      sound = record {
        agrees = undo-Agrees s.undo m.registry g.sound.agrees fits;
        keyed = undo-Keyed s.undo m.registry g.sound.keyed fits;
        distinct = undo-Distinct s.undo m.registry g.sound.distinct;
      };
      stored = g.stored;
      stores = g.stores;
      waits = left;
    }

suspend-Waits :
    (id : String) (saving : Option Saving) (r : SessionRegistry) (stored : Dict SessionWorkspace)
    → Waits saving r stored
    → Waits saving (suspend id r) stored
unfolding suspend
suspend-Waits id none r stored w = w
suspend-Waits id (some s) r stored (contents, fits, left) = (
  contents,
  suspend-Fits id s.undo r fits,
  λ i. left i ∙ sym (ap (λ m. written_as (get i m)) (undo-suspend id s.undo r)),
)

pub suspend-IsGood :
    (m : Machine) (id : String) → IsGood m → IsGood (record m { registry = suspend id m.registry })
suspend-IsGood m id g = record {
  sound = suspend-IsSound id m.registry g.sound;
  stored = g.stored;
  stores = g.stores;
  waits = suspend-Waits id m.saving m.registry g.stored g.waits;
}

-- ===== src/Session/Attachments.antt =====
-- `remove` of apps/api/src/attachments/session-attachments.service.ts. The deletions of the objects
-- settle in the order of the attachments.
use pair_dock.Prelude.{String, List, [], ◌∷◌, map, ◌≡◌, refl, Result, ok, err}

-- Whose objects the storage has deleted, and whose it has not.
pub record Removal (A : Type 0) : Type 0 where
  pub deleted : List A
  pub kept : List A

module _ {W A E : Type 0} (delete_object : A → W → W × Result E (Unit {0})) where
  abbrev pub settled : A → Result E (Unit {0}) → Removal A → Removal A
  settled a (ok _) r = record r { deleted = a ∷ r.deleted }
  settled a (err _) r = record r { kept = a ∷ r.kept }

  -- Each attachment is one that the storage has deleted, or one that it has refused to delete.
  pub data Splits : List A → Removal A → Type 0 where
    none_left : Splits [] (record { deleted = []; kept = [] })
    is_deleted :
        {a : A} {others deleted kept : List A} (world : W)
        → (delete_object a world).1 ≡ ok tt
        → Splits others (record { deleted = deleted; kept = kept })
        → Splits (a ∷ others) (record { deleted = a ∷ deleted; kept = kept })
    is_kept :
        {a : A} {others deleted kept : List A} (world : W) (e : E)
        → (delete_object a world).1 ≡ err e
        → Splits others (record { deleted = deleted; kept = kept })
        → Splits (a ∷ others) (record { deleted = deleted; kept = a ∷ kept })

  -- `Promise.allSettled`.
  unfoldable pub delete_objects : List A → W → W × Removal A
  delete_objects [] world = (world, record { deleted = []; kept = [] })
  delete_objects (a ∷ others) world =
      let (after, answer) = delete_object a world in
      let (last, rest) = delete_objects others after in (last, settled a answer rest)

  settled-Splits :
      (a : A) (others : List A) (world : W) (answer : Result E (Unit {0})) (r : Removal A)
      → (delete_object a world).1 ≡ answer
      → Splits others r
      → Splits (a ∷ others) (settled a answer r)
  settled-Splits a others world (ok tt) r same s = is_deleted world same s
  settled-Splits a others world (err e) r same s = is_kept world e same s

  delete_objects-Splits :
      (others : List A) (world : W) → Splits others (delete_objects others world).1
  unfolding delete_objects
  delete_objects-Splits [] world = none_left
  delete_objects-Splits (a ∷ others) world =
      settled-Splits a others world (delete_object a world).1
        (delete_objects others (delete_object a world).0).1 refl
        (delete_objects-Splits others (delete_object a world).0)

  module _ (delete_by_ids : List String → W → W × Result E (Unit {0})) (id_of : A → String) where
    -- The rows of what was deleted.
    abbrev pub delete_rows : List A → W → W × Result E (Unit {0})
    delete_rows [] world = (world, ok tt)
    delete_rows (a ∷ others) world = delete_by_ids (map id_of (a ∷ others)) world

    -- `remove`, with what it has removed. Where `deleteByIds` throws, the rows stay.
    unfoldable pub remove : List A → W → Removal A × W × Result E (Unit {0})
    unfolding delete_objects
    remove attachments world =
        let (after, removal) = delete_objects attachments world in
        let (last, answer) = delete_rows removal.deleted after in (removal, last, answer)

    pub remove-Splits : (others : List A) (world : W) → Splits others (remove others world).0
    unfolding remove
    remove-Splits others world = delete_objects-Splits others world

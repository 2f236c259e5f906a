-- ===== src/ForeignChange.antt =====
-- What `detectForeignChange` of internal/controller/release_controller.go reports.
use nelm_operator.Base.{
  String, ℤ, pos, negsuc, eq_ℤ, ltb_ℤ, Dict, read, read-insert_self, copy_into, [], Bool-cases, inl,
  inr, refl, ◌≡◌, ◌↔◌, ◌⊎◌, true, false, Option, none, some, arith,
}
use nelm_operator.Options.{ownership_labels, ownership_marker_key, ownership_marker_value}
use nelm_operator.World.{StoredRelease}
use nelm_operator.Controller.{detect_foreign_change, is_owned}

-- What makes a stored state differ from the recorded revision.
abbrev pub Diverged : ℤ → Option StoredRelease → Type 0
Diverged recorded none = Unit
Diverged recorded (some stored) =
    (ltb_ℤ recorded stored.revision ≡ true) ⊎ (is_owned stored ≡ false)

-- A change is reported exactly when a revision is recorded and the storage has lost the release,
-- holds a newer revision, or holds one without the operator's marker.
pub detect_foreign_change_iff :
    (recorded : ℤ) (stored : Option StoredRelease)
    → (detect_foreign_change recorded stored ≡ true)
      ↔ ((eq_ℤ recorded (pos 0) ≡ false) × Diverged recorded stored)
unfolding detect_foreign_change
detect_foreign_change_iff recorded none = ground arith
detect_foreign_change_iff recorded (some stored) = ground arith

ltb_irrefl : (a : ℤ) → ltb_ℤ a a ≡ false
unfolding ltb_ℤ
ltb_irrefl (pos n) = ground arith
ltb_irrefl (negsuc n) = ground arith

ownership_labels-owned :
    (labels : Dict String)
    → read ownership_marker_key (ownership_labels labels) ≡ ownership_marker_value
unfolding ownership_labels
ownership_labels-owned labels =
    read-insert_self ownership_marker_key ownership_marker_value (copy_into [] labels)

-- A stored release at the recorded revision, with the labels that the operator sends with its own
-- installs and rollbacks, is no foreign change, whatever labels the user asked for.
pub detect_foreign_change-ownership_labels :
    (recorded : ℤ) (status : String) (labels : Dict String)
    → detect_foreign_change recorded (
        some (record {
          revision = recorded;
          status = status;
          storage_labels = ownership_labels labels;
        }))
      ≡ false
unfolding detect_foreign_change is_owned
detect_foreign_change-ownership_labels recorded status labels =
    elim (Bool-cases (eq_ℤ recorded (pos 0))) [
      | inl first ↦ rw first refl
      | inr later ↦ rw (later, ltb_irrefl recorded, ownership_labels-owned labels) refl
    ]

-- The release is gone, or its latest revision carries the operator's marker.
abbrev pub Marked : Option StoredRelease → Type 0
Marked none = Unit
Marked (some stored) = is_owned stored ≡ true

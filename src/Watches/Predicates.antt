-- ===== src/Watches/Predicates.antt =====
-- `SourceRevisionChangePredicate` of internal/predicates/source.go.
use nelm_operator.Base.{String, Bool, true, false, ◌&&◌, not, Option, none, some, if◌then◌else◌}

-- An object of an event by what the conversions to `sourcev1.Source` and `conditions.Getter` give:
-- the first carries an artifact's revision if there is an artifact, the second the Ready condition.
module _ {Object : Type 0} (as_source : Object → Option (Option String))
    (has_revision : String → String → Bool) (as_getter : Object → Option Bool) where
  -- Whether the artifact is new.
  unfoldable pub is_new_artifact : Option String → Option String → Bool
  is_new_artifact none none = false
  is_new_artifact none (some revision) = true
  is_new_artifact (some old) none = false
  is_new_artifact (some old) (some revision) = not (has_revision old revision)

  unfoldable pub became_ready : Option Bool → Option Bool → Bool
  became_ready none new = false
  became_ready (some old) none = false
  became_ready (some old) (some new) = not old && new

  -- Behind the conversions to a source.
  unfoldable pub is_source_change :
      Object → Object → Option (Option String) → Option (Option String) → Bool
  unfolding is_new_artifact became_ready
  is_source_change old new none s = false
  is_source_change old new (some a) none = false
  is_source_change old new (some a) (some b) =
      if is_new_artifact a b then true else became_ready (as_getter old) (as_getter new)

  -- `Update`, where `none` is a nil object.
  unfoldable pub update_passes : Option Object → Option Object → Bool
  unfolding is_source_change
  update_passes none new = false
  update_passes (some old) none = false
  update_passes (some old) (some new) = is_source_change old new (as_source old) (as_source new)

  -- `Create` and `Delete`
  unfoldable pub create_passes : Option Object → Bool
  create_passes o = false

  unfoldable pub delete_passes : Option Object → Bool
  delete_passes o = false

-- ===== src/Watches/Changes.antt =====
-- Which updates of a source pass the predicate.
use nelm_operator.Base.{String, ◌≡◌, Bool, true, false, Option, none, some}
use nelm_operator.Watches.Predicates.{update_passes}

module _ {Object : Type 0} (as_source : Object → Option (Option String))
    (has_revision : String → String → Bool) (as_getter : Object → Option Bool) where
  -- A source has its first artifact, or one of another revision, or has become ready.
  pub data Changed : Option Object → Option Object → Type 0 where
    appears :
        (old new : Object) (revision : String)
        → as_source old ≡ some none
        → as_source new ≡ some (some revision)
        → Changed (some old) (some new)
    is_revised :
        (old new : Object) (before revision : String)
        → as_source old ≡ some (some before)
        → as_source new ≡ some (some revision)
        → has_revision before revision ≡ false
        → Changed (some old) (some new)
    becomes_ready :
        (old new : Object) (before after : Option String)
        → as_source old ≡ some before
        → as_source new ≡ some after
        → as_getter old ≡ some false
        → as_getter new ≡ some true
        → Changed (some old) (some new)

  abbrev Passes : Option Object → Option Object → Type 0
  Passes old new = update_passes as_source has_revision as_getter old new ≡ true

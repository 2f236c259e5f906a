-- ===== src/Phases/References.antt =====
-- The comparison of chart source references, `reflect.DeepEqual` in `resolveChartRef` of
-- internal/controller/release_controller.go.
use nelm_operator.Base.{◌≡◌, true, eq_refl}
use nelm_operator.Api.{ChartSourceReference}
use nelm_operator.Controller.{same_reference}

pub same_reference_refl : (a : ChartSourceReference) → same_reference a a ≡ true
unfolding same_reference
same_reference_refl a = simp (eq_refl)

-- ===== src/Api/Constants.antt =====
-- api/v1alpha1/const.go
use nelm_operator.Base.{String}

abbrev pub release_finalizer_name : String
release_finalizer_name = "nelm.werf.io/release"

abbrev pub helm_chart_release_ref_label_name : String
helm_chart_release_ref_label_name = "nelm.werf.io/release-ref"

abbrev pub source_ref_release_ref_annotation_name : String
source_ref_release_ref_annotation_name = "nelm.werf.io/release-refs"

abbrev pub chart_source_phase_ready : String
chart_source_phase_ready = "Ready"

abbrev pub chart_source_phase_pending : String
chart_source_phase_pending = "Pending"

abbrev pub chart_source_phase_disconnecting : String
chart_source_phase_disconnecting = "Disconnecting"

-- ===== src/Finalizers.antt =====
-- The operator's finalizer among the others: `controllerutil.AddFinalizer` and `RemoveFinalizer` as
-- internal/controller/release_controller.go uses them.

-- ===== src/Sweep.antt =====
-- internal/sweep: the runs of a parameter sweep.
pub mod Grid
pub mod Folds

-- ===== src/Bridge/Numbers.antt =====
-- `Finite` of app/bridge_json.h.
use jitterentropy_analysis_d.Prelude.{if◌then◌else◌}
use jitterentropy_analysis_d.Double.{Double, lit}

-- A number that JSON can show, with 0 for any other.
pub finite : {F : Type 0} ⦃d : Double F⦄ → F → F
finite ⦃d⦄ v = if d.is_finite v then v else lit 0

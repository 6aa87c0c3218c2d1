-- ===== src/Prelude/Float.antt =====
-- The `double` of the source. Its values only travel between `atof` and `operator<<`, so the type
-- is a parameter with these operations, and what a round trip asks of a value is a predicate.
use rt_mbms_mw.Prelude.{◌≡◌}
use rt_mbms_mw.Prelude.Key.{Bytes}
use rt_mbms_mw.Prelude.Text.{IsSolid, Lacks}

pub record Float (D : Type 0) : Type 0 where
  pub atof : Bytes → D
  -- `operator<<` with the default format, and with `std::fixed << std::setprecision(3)`
  pub show : D → Bytes
  pub show_fixed : D → Bytes
  pub zero : D
  pub minus_one : D

-- A printed form that is one word, has no colon, and is read back as the value.
pub record Prints {D : Type 0} (atof : Bytes → D) (show : D → Bytes) (d : D) : Type 0 where
  pub solid : IsSolid (show d)
  pub no_colon : Lacks b':' (show d)
  pub exact : atof (show d) ≡ d

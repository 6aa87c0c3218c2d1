-- ===== src/Flute/Tests.antt =====
-- A concrete file, with which the theorems of the parts are applied.
use rt_mbms_mw.Prelude.{ℕ, true, [], length}
use rt_mbms_mw.Prelude.Key.{Bytes}
use rt_mbms_mw.Flute.{Flute}

pub record TestFile : Type 0 where
  pub location : Bytes
  pub content : Bytes
  pub time : ℕ

instance abbrev pub test_flute : Flute TestFile
test_flute = record {
  content_location = λ f. f.location;
  content_type = λ f. [];
  toi = λ f. 1;
  buffer = λ f. f.content;
  length = λ f. length f.content;
  complete = λ f. true;
  received_at = λ f. f.time;
}

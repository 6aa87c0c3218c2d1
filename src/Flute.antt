-- ===== src/Flute.antt =====
-- What the middleware uses of a `LibFlute::File`. The library is not part of the repository, so the
-- type of its files is a parameter with these observers. A file is handed over when it is complete,
-- and is not changed by the library from then on.
pub mod Tests
use rt_mbms_mw.Prelude.{ℕ, Bool, take}
use rt_mbms_mw.Prelude.Key.{Bytes}

pub record Flute (F : Type 0) : Type 0 where
  pub content_location : F → Bytes
  pub content_type : F → Bytes
  pub toi : F → ℕ
  -- the bytes behind `buffer()`, and `length()`
  pub buffer : F → Bytes
  pub length : F → ℕ
  pub complete : F → Bool
  pub received_at : F → ℕ

-- `std::string(file->buffer(), file->length())`
abbrev pub file_text : {F : Type 0} ⦃flute : Flute F⦄ → F → Bytes
file_text ⦃flute⦄ file = take (flute.length file) (flute.buffer file)

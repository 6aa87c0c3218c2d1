-- ===== src/Segment/Tests.antt =====
-- Runs of a segment, and its theorems at concrete segments.
use rt_mbms_mw.Segment.Order.{read, answered, broadcast_file, segment_run, segment_run-broadcast}
use rt_mbms_mw.Prelude.{[], none, some, ◌≡◌, refl, ◌⊎◌, ◌∷◌, ◌++◌}
use rt_mbms_mw.Prelude.Int.{pos}
use rt_mbms_mw.Prelude.Key.{Bytes}
use rt_mbms_mw.Prelude.Text.{codes}
use rt_mbms_mw.Cdn.{Http, response, cdn_get, CdnFile}
use rt_mbms_mw.Flute.Tests.{TestFile, test_flute}
use rt_mbms_mw.Segment.{
  Segment, broadcast, cdn, unavailable, segment_init, set_cdn_client, set_flute_file,
  fetch_from_cdn, segment_buffer, segment_content_length, data_source,
}
use rt_mbms_mw.Segment.Laws.{
  segment_buffer-data_source, set_flute_file-buffer, segment_buffer_retry,
}

abbrev server : Http
server base path = response 200 (codes "media")

abbrev from_cdn : Segment TestFile Bytes
from_cdn =
    set_cdn_client (record { base_url = codes "http://cdn" })
      (segment_init (codes "a/1.ts") (pos 1) (codes "2.0"))

abbrev arrived : TestFile
arrived = record { location = codes "a/1.ts"; content = codes "radio"; time = 7 }

not_found : (segment_buffer (λ base path. response 404 []) 9 from_cdn).1 ≡ from_cdn
unfolding segment_buffer cdn_get fetch_from_cdn
not_found = refl

segment_buffer-data_source_example :
    ((data_source from_cdn ≡ unavailable)
      × (segment_content_length from_cdn ≡ 0)
      × ((segment_buffer server 9 from_cdn).0 ≡ none))
    ⊎ (((data_source from_cdn ≡ broadcast) ⊎ (data_source from_cdn ≡ cdn))
        × ((b : Bytes) × (segment_buffer server 9 from_cdn ≡ (some b, from_cdn))))
segment_buffer-data_source_example = segment_buffer-data_source server 9 from_cdn

arrived_first :
    (segment_buffer server 9 (set_flute_file arrived from_cdn)
      ≡ (some (codes "radio"), set_flute_file arrived from_cdn))
    × (data_source (set_flute_file arrived from_cdn) ≡ broadcast)
    × ((set_flute_file arrived from_cdn).content_received_at ≡ 7)
arrived_first = set_flute_file-buffer server 9 arrived from_cdn refl

no_source : data_source from_cdn ≡ unavailable
unfolding data_source
no_source = refl

asked_twice :
    let t = (segment_buffer server 9 from_cdn).1 in
    ((segment_buffer server 9 from_cdn).0 ≡ none)
    × (segment_buffer server 12 t ≡ (some (codes "media"), t))
    × (data_source t ≡ cdn)
    × (t.content_received_at ≡ 9)
    × (segment_content_length t ≡ 5)
asked_twice = segment_buffer_retry server 9 12 from_cdn _ (codes "media") no_source refl refl

-- An answer of the CDN comes before the broadcast file, and one behind it, with a read between them.
abbrev late_file : CdnFile
late_file = record { buffer = codes "late"; size = 4 }

segment_run-broadcast_example :
    let t : Segment TestFile Bytes =
      segment_run
        ((read server 3 ∷ answered 4 late_file ∷ [])
          ++ (broadcast_file arrived ∷ read server 8 ∷ answered 9 late_file ∷ []))
        from_cdn in
    (segment_buffer server 12 t ≡ (some (codes "radio"), t))
    × (segment_content_length t ≡ 5)
    × (data_source t ≡ broadcast)
segment_run-broadcast_example =
    segment_run-broadcast server 12 (read server 3 ∷ answered 4 late_file ∷ [])
      (read server 8 ∷ answered 9 late_file ∷ []) arrived from_cdn refl (tt, (tt, tt))

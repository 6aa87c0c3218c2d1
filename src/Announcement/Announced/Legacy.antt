-- ===== src/Announcement/Announced/Legacy.antt =====
-- `_setupBy5GMagLegacyFormat` from its delivery method to the service with its stream.
use rt_mbms_mw.Prelude.{ℕ, Bool, List, [], ◌∷◌, ◌++◌, ◌≡◌, refl, ap, ◌∙◌, length, get_elem?-length}
use rt_mbms_mw.Prelude.Float.{Float}
use rt_mbms_mw.Prelude.Key.{Bytes, bytes_key}
use rt_mbms_mw.Prelude.Map.{insert}
use rt_mbms_mw.Prelude.Result.{ok}
use rt_mbms_mw.Announcement.{Item}
use rt_mbms_mw.Announcement.Action.{not_null, string_of, for_each, fold_each, continue, ◌>>=◌, ◌>>◌}
use rt_mbms_mw.Announcement.Announced.Steps.{
  IsOnly, Last, ask_service-Last, set-length, add_stream-Last,
}
use rt_mbms_mw.Announcement.Announced.Broadcast.{
  IsBroadcast, based_stream, LastStream, on_stream-Last, apply_items-Last,
}
use rt_mbms_mw.Announcement.Announced.Application.{with_protocol}
use rt_mbms_mw.Announcement.Setup.{is_sdp_item, add_streams}
use rt_mbms_mw.Announcement.Setup.Legacy.{
  is_wanted, legacy_manifest, legacy_stream, legacy_pattern, legacy_patterns, legacy_method,
  setup_by_5gmag_legacy_format,
}
use rt_mbms_mw.Announcement.World.{
  World, Setting, set_streams, set_base_path, make_shared, make_stream, set_stream_base_path,
  add_stream,
}
use rt_mbms_mw.Service.{Service, AnyStream, basic, add_and_start_content_stream}
use rt_mbms_mw.Stream.{ContentStream, dash, stream_init, start, configure_5gbc_delivery_from_sdp}

-- The service behind its stream.
abbrev pub with_stream_at : {D : Type 0} → ContentStream D → ℕ → Service D → Service D
with_stream_at t place s = record s {
  content_streams = insert t.playlist_path place s.content_streams;
  manifest = s.dash_manifest.content;
}

-- The stream that the description makes: it is configured from the session description, and
-- started.
pub record IsStarted {E D : Type 0} (g : Setting E D) (url sdp iface base : Bytes) : Type 0 where
  pub stream : ContentStream D
  pub complete : Bool
  pub configured :
      configure_5gbc_delivery_from_sdp sdp (based_stream g url iface base) ≡ ok (stream, complete)
  pub running : ContentStream D
  pub started_ok : start stream ≡ ok running

module _ {F D : Type 0} ⦃float : Float D⦄ where
  add_and_start-dash :
      (zs : List (AnyStream F D)) (t t' : ContentStream D) (s : Service D)
      → start t ≡ ok t'
      → add_and_start_content_stream (length zs) (zs ++ (basic t ∷ [])) (with_protocol dash s)
        ≡ ok (with_stream_at t (length zs) (with_protocol dash s), zs ++ (basic t' ∷ []))
  unfolding add_and_start_content_stream
  add_and_start-dash zs t t' s h =
      rw (get_elem?-length zs (basic t), add_and_start_content_stream, h)
        (ap (λ l. ok (with_stream_at t (length zs) (with_protocol dash s), l))
          (set-length zs (basic t) (basic t')))

  -- The objects behind `add_and_start_content_stream`.
  abbrev pub added_world :
      List (Service D)
      → Service D
      → List (AnyStream F D)
      → ContentStream D
      → ContentStream D
      → World F D
      → World F D
  added_world xs s zs t t' w = record w {
    backend = record (w.backend) {
      services = xs ++ (with_stream_at t (length zs) (with_protocol dash s) ∷ []);
      streams = zs ++ (basic t' ∷ []);
    };
  }

  add_stream-dash :
      (xs : List (Service D)) (s : Service D) (zs : List (AnyStream F D)) (t t' : ContentStream D)
      (w : World F D)
      → Last xs (with_protocol dash s) w
      → LastStream zs (basic t) w
      → start t ≡ ok t'
      → add_stream (length xs) (length zs) w ≡ (ok tt, added_world xs s zs t t' w)
  add_stream-dash xs s zs t t' w e f h =
      add_stream-Last xs (with_protocol dash s) _ (length zs) _ w e (
        ap (λ l. add_and_start_content_stream (length zs) l (with_protocol dash s)) f
        ∙ add_and_start-dash zs t t' s h)

  module _ {E : Type 0} (g : Setting E D) where
    legacy_stream-ok :
        (service : ℕ) (sdp_uri url : Bytes) (sdp : Item) (w : World F D)
        (t : IsStarted g url sdp.content w.self.iface w.self.base_path)
        → IsOnly (is_sdp_item sdp_uri) w.self.items sdp
        → legacy_stream g service dash sdp_uri url [] w ≡ (
          ok (length w.backend.streams ∷ []),
          set_streams (w.backend.streams ++ (basic t.stream ∷ [])) w,
        )
    unfolding legacy_stream make_stream make_shared set_stream_base_path set_base_path ◌>>=◌ ◌>>◌
        continue
    legacy_stream-ok service sdp_uri url sdp w t o =
        let zs = w.backend.streams in
        let s = stream_init g.garbage url w.self.iface dash in
        let b = based_stream g url w.self.iface w.self.base_path in
        let v = set_streams (zs ++ (basic s ∷ [])) w in
        rw
          (
            on_stream-Last (λ s. ok (set_base_path w.self.base_path s, tt)) tt zs s b v refl refl,
            continue,
            apply_items-Last (legacy_manifest dash sdp_uri) sdp_uri sdp zs b t.stream t.complete
                (set_streams (zs ++ (basic b ∷ [])) w) o t.configured refl,
            continue,
          )
          refl

    -- The stream of the description is made, configured, added to the service and started.
    pub setup-Last :
        (usd : E) (xs : List (Service D)) (s : Service D) (w : World F D)
        (d : IsBroadcast g usd w.self.items)
        (t : IsStarted g d.url d.sdp.content w.self.iface w.self.base_path)
        → Last xs (with_protocol dash s) w
        → setup_by_5gmag_legacy_format g (length xs) usd w
          ≡ (ok tt, added_world xs s w.backend.streams t.stream t.running w)
    unfolding setup_by_5gmag_legacy_format fold_each legacy_method legacy_patterns legacy_pattern
        add_streams for_each is_wanted ◌>>=◌ ◌>>◌ continue not_null string_of
    setup-Last usd xs s w d t e =
        let zs = w.backend.streams in
        rw
          (
            d.method_at,
            d.sdp_uri_at,
            not_null,
            continue,
            d.element_at,
            d.pattern_at,
            fold_each,
            d.url_at,
            string_of,
            continue,
            ask_service-Last (λ (s : Service D). s.delivery_protocol) xs (with_protocol dash s) w e,
            continue,
            legacy_stream-ok (length xs) d.sdp_uri d.url d.sdp w t d.only,
            continue,
            add_stream-dash xs s zs t.stream t.running (set_streams (zs ++ (basic t.stream ∷ [])) w)
                e refl t.started_ok,
            continue,
          )
          refl

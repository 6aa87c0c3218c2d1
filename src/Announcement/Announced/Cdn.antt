-- ===== src/Announcement/Announced/Cdn.antt =====
-- A new HLS service of the default format that only a CDN offers, from its description to the
-- registered service.
use rt_mbms_mw.Prelude.{List, [], ◌∷◌, ◌++◌, none, some, ◌≡◌, refl, length}
use rt_mbms_mw.Prelude.Float.{Float}
use rt_mbms_mw.Prelude.Key.{Bytes, bytes_key, equal}
use rt_mbms_mw.Prelude.Map.{insert}
use rt_mbms_mw.Prelude.Result.{ok}
use rt_mbms_mw.Announcement.Action.{string_of, continue, ◌>>=◌, ◌>>◌}
use rt_mbms_mw.Announcement.Announced.Application.{IsApplication, base_of}
use rt_mbms_mw.Announcement.Announced.Hls.{with_primary, hls_world, handle_app_service-hls}
use rt_mbms_mw.Announcement.Announced.Steps.{named, register_service-new, ask_service-Last}
use rt_mbms_mw.Announcement.Announced.Unicast.{
  IsUnicast, pointed_stream, unicast_service, unicast_world, setup-unicast,
}
use rt_mbms_mw.Announcement.Bundle.{get_service, set_service, publish, setup, user_service}
use rt_mbms_mw.Announcement.World.{World, Setting, set_services}
use rt_mbms_mw.Announcement.Xml.{service_id, app_service, default_format}
use rt_mbms_mw.Hls.Primary.{HlsPrimaryPlaylist, primary_parse}
use rt_mbms_mw.Seamless.{SeamlessContentStream}
use rt_mbms_mw.Service.{Service, service_init, seamless}
use rt_mbms_mw.Service.Adding.{matched, with_started-streams}
use rt_mbms_mw.Stream.{hls}

-- A description with a new service id: of an HLS service whose primary playlist is among the items
-- and can be read, with one base pattern in its alternative content and no delivery method, where
-- seamless switching is on.
pub record IsCdnService {E F D : Type 0} ⦃float : Float D⦄ (g : Setting E D) (usd : E)
    (w : World F D) : Type 0 where
  pub id : Bytes
  pub id_at : g.xml.attribute service_id usd ≡ some id
  pub is_new : get_service id w.backend ≡ none
  pub app : E
  pub apps : List E
  pub app_at : g.xml.children app_service usd ≡ app ∷ apps
  pub hls : IsApplication hls g app w.self.items
  pub primary : HlsPrimaryPlaylist D
  pub primary_ok : primary_parse hls.manifest.content (base_of hls.parsed) ≡ ok primary
  pub unicast : IsUnicast g usd app w.self.seamless

module _ {E F D : Type 0} ⦃float : Float D⦄ (g : Setting E D) (usd : E) where
  -- The new service with these names, before it has its stream.
  abbrev pub described_service :
      (w : World F D) → IsCdnService g usd w → List (Bytes × Bytes) → Service D
  described_service w d names =
      with_primary d.primary d.hls.parsed (named names (service_init g.garbage_protocol))

  -- The new stream, before the service takes it.
  abbrev pub cdn_stream : (w : World F D) → IsCdnService g usd w → SeamlessContentStream F D
  cdn_stream w d = pointed_stream g d.unicast.url w.self.iface d.unicast.endpoint

  -- The objects behind the description.
  abbrev pub cdn_world : (w : World F D) → IsCdnService g usd w → List (Bytes × Bytes) → World F D
  cdn_world w d names =
      let xs = w.backend.services in
      let v =
        hls_world xs (named names (service_init g.garbage_protocol)) d.primary d.hls.parsed w in
      let u = unicast_world xs (described_service w d names) w.backend.streams (cdn_stream w d) v in
      record u { backend = set_service d.id (length xs) u.backend }

  pub user_service-cdn :
      (w : World F D) (d : IsCdnService g usd w)
      → (names : List (Bytes × Bytes)) × (user_service g default_format usd w
          ≡ (ok tt, cdn_world w d names))
  unfolding user_service setup publish ◌>>=◌ ◌>>◌ continue string_of equal insert
  user_service-cdn w d =
      let xs = w.backend.services in
      let (ns, p) = register_service-new g usd d.id w d.is_new in
      let s : Service D = named ns (service_init g.garbage_protocol) in
      let t = described_service w d ns in
      let v = hls_world xs s d.primary d.hls.parsed w in
      let u = unicast_world xs t w.backend.streams (cdn_stream w d) v in
      (
        ns,
        rw
            (
              d.id_at,
              string_of,
              continue,
              p,
              d.app_at,
              handle_app_service-hls g d.app xs s d.primary (set_services (xs ++ (s ∷ [])) w) d.hls
                  refl d.primary_ok,
              continue,
              setup-unicast g usd d.app xs t v d.unicast refl refl,
              continue,
              ask_service-Last (λ (s : Service D). s.content_streams) xs
                  (unicast_service w.backend.streams (cdn_stream w d) t) u refl,
              continue,
              with_started-streams (length w.backend.streams) (seamless (cdn_stream w d))
                  (matched (seamless (cdn_stream w d)) t)
                  (w.backend.streams ++ (seamless (cdn_stream w d) ∷ [])) t refl,
            )
            refl,
      )

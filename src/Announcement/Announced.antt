-- ===== src/Announcement/Announced.antt =====
-- A new DASH service in the format `5gmag_legacy`, from its description to the registered service.
pub mod Steps
pub mod Application
pub mod Dash
pub mod Hls
pub mod Unicast
pub mod Cdn
pub mod Broadcast
pub mod Legacy
pub mod Bootstrap
pub mod Unowned
use rt_mbms_mw.Announcement.Announced.Application.{IsApplication, base_of}
use rt_mbms_mw.Prelude.{ℕ, Bool, true, List, [], ◌∷◌, ◌++◌, none, some, ◌≡◌, refl, length}
use rt_mbms_mw.Prelude.Float.{Float}
use rt_mbms_mw.Prelude.Key.{Bytes, bytes_key, equal}
use rt_mbms_mw.Prelude.Map.{insert}
use rt_mbms_mw.Prelude.Result.{ok}
use rt_mbms_mw.Announcement.Action.{change, string_of, continue, ◌>>=◌, ◌>>◌}
use rt_mbms_mw.Announcement.Announced.Steps.{
  named, register_service-new, ask_service-Last, set-length,
}
use rt_mbms_mw.Announcement.Announced.Dash.{with_mpd, dash_world, handle_app_service-dash}
use rt_mbms_mw.Announcement.Announced.Broadcast.{IsBroadcast}
use rt_mbms_mw.Announcement.Announced.Legacy.{IsStarted, with_stream_at, added_world, setup-Last}
use rt_mbms_mw.Announcement.Bundle.{get_service, set_service, publish, setup, user_service}
use rt_mbms_mw.Announcement.World.{World, Setting, set_services}
use rt_mbms_mw.Announcement.Xml.{service_id, app_service, fiveg_mag_legacy, fiveg_mag_bc_uc}
use rt_mbms_mw.Service.{Service, service_init}
use rt_mbms_mw.Stream.{ContentStream, dash}

-- A description with a new service id: of a DASH service whose manifest is among the items, with one
-- delivery method, one base pattern, and a session description that the stream can be configured
-- from and started with.
pub record IsDashService {E F D : Type 0} (g : Setting E D) (usd : E) (w : World F D) : Type 0 where
  pub id : Bytes
  pub id_at : g.xml.attribute service_id usd ≡ some id
  pub is_new : get_service id w.backend ≡ none
  pub app : E
  pub apps : List E
  pub app_at : g.xml.children app_service usd ≡ app ∷ apps
  pub dash : IsApplication dash g app w.self.items
  pub broadcast : IsBroadcast g usd w.self.items
  pub started : IsStarted g broadcast.url broadcast.sdp.content w.self.iface (base_of dash.parsed)

module _ {E F D : Type 0} ⦃float : Float D⦄ (g : Setting E D) (usd : E) where
  -- The new service, with these names.
  abbrev pub announced_service :
      (w : World F D) → IsDashService g usd w → List (Bytes × Bytes) → Service D
  announced_service w d names = with_stream_at d.started.stream (length w.backend.streams) (
      with_mpd d.dash.manifest.content d.dash.parsed
        (named names (service_init g.garbage_protocol)))

  -- The objects behind the description.
  abbrev pub announced_world :
      (w : World F D) → IsDashService g usd w → List (Bytes × Bytes) → World F D
  announced_world w d names =
      let xs = w.backend.services in
      let s : Service D = named names (service_init g.garbage_protocol) in
      let v = dash_world xs s d.dash.manifest.content d.dash.parsed w in
      let u =
        added_world xs (with_mpd d.dash.manifest.content d.dash.parsed s) w.backend.streams
          d.started.stream d.started.running v in
      record u { backend = set_service d.id (length xs) u.backend }

  pub user_service-announced :
      (w : World F D) (d : IsDashService g usd w)
      → (names : List (Bytes × Bytes)) × (user_service g fiveg_mag_legacy usd w
          ≡ (ok tt, announced_world w d names))
  unfolding user_service setup publish ◌>>=◌ ◌>>◌ continue string_of equal insert
  user_service-announced w d =
      let xs = w.backend.services in
      let (ns, p) = register_service-new g usd d.id w d.is_new in
      let s : Service D = named ns (service_init g.garbage_protocol) in
      let mpd = with_mpd d.dash.manifest.content d.dash.parsed s in
      let v = dash_world xs s d.dash.manifest.content d.dash.parsed w in
      let u = added_world xs mpd w.backend.streams d.started.stream d.started.running v in
      (
        ns,
        rw
            (
              d.id_at,
              string_of,
              continue,
              p,
              d.app_at,
              handle_app_service-dash g d.app xs s (set_services (xs ++ (s ∷ [])) w) d.dash refl,
              continue,
              setup-Last g usd xs mpd v d.broadcast d.started refl,
              continue,
              ask_service-Last (λ (s : Service D). s.content_streams) xs
                  (with_stream_at d.started.stream (length w.backend.streams) mpd) u refl,
              continue,
            )
            refl,
      )

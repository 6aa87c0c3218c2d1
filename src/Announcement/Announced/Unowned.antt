-- ===== src/Announcement/Announced/Unowned.antt =====
-- A new service that gets no stream.
use rt_mbms_mw.Stream.{dash}
use rt_mbms_mw.Announcement.Announced.Application.{IsApplication}
use rt_mbms_mw.Prelude.{
  ℕ, List, [], ◌∷◌, ◌++◌, some, none, ◌≡◌, ◌≢◌, refl, arith, All, All-map, length, get_elem?-lt,
}
use rt_mbms_mw.Prelude.Float.{Float}
use rt_mbms_mw.Prelude.Key.{Bytes, bytes_key, equal}
use rt_mbms_mw.Prelude.Map.{find, find-insert_self}
use rt_mbms_mw.Prelude.Result.{ok}
use rt_mbms_mw.Announcement.Action.{string_of, fold_each, continue, ◌>>=◌, ◌>>◌}
use rt_mbms_mw.Announcement.Announced.Dash.{
  manifest_path_of, with_mpd, dash_world, handle_app_service-dash,
}
use rt_mbms_mw.Announcement.Announced.Steps.{named, register_service-new, ask_service-Last}
use rt_mbms_mw.Announcement.Bundle.{get_service, publish, setup, user_service}
use rt_mbms_mw.Announcement.Setup.Legacy.{setup_by_5gmag_legacy_format}
use rt_mbms_mw.Announcement.World.{World, Setting, set_services}
use rt_mbms_mw.Announcement.Xml.{service_id, app_service, delivery_method, fiveg_mag_legacy}
use rt_mbms_mw.Backend.Sound.{IsSound, HasStream}
use rt_mbms_mw.Cache.{CacheItem, service_manifest, add_item}
use rt_mbms_mw.Service.{Service, service_init}

-- A description with a new service id, of a DASH service whose manifest is among the items, and with
-- no delivery method.
pub record IsStreamless {E F D : Type 0} (g : Setting E D) (usd : E) (w : World F D) : Type 0 where
  pub id : Bytes
  pub id_at : g.xml.attribute service_id usd ≡ some id
  pub is_new : get_service id w.backend ≡ none
  pub app : E
  pub apps : List E
  pub app_at : g.xml.children app_service usd ≡ app ∷ apps
  pub dash : IsApplication dash g app w.self.items
  pub no_method : g.xml.children delivery_method usd ≡ []

module _ {D : Type 0} where
  HasStream-ne :
      (services : List (Service D)) (e : Bytes × ℕ) → HasStream services e.1 → e.1 ≢ length services
  HasStream-ne services e h p = omega (arith, get_elem?-lt services e.1 h.at_place)

module _ {E F D : Type 0} ⦃float : Float D⦄ (g : Setting E D) (usd : E) where
  user_service-streamless :
      (w : World F D) (d : IsStreamless g usd w)
      → (names : List (Bytes × Bytes)) × (user_service g fiveg_mag_legacy usd w ≡ (
        ok tt,
        dash_world w.backend.services
            (named names (service_init g.garbage_protocol))
            d.dash.manifest.content
            d.dash.parsed
            w,
      ))
  unfolding user_service setup publish setup_by_5gmag_legacy_format fold_each ◌>>=◌ ◌>>◌ continue
      string_of equal
  user_service-streamless w d =
      let xs = w.backend.services in
      let (ns, p) = register_service-new g usd d.id w d.is_new in
      let s : Service D = named ns (service_init g.garbage_protocol) in
      let v = dash_world xs s d.dash.manifest.content d.dash.parsed w in
      (
        ns,
        rw
            (
              d.id_at,
              string_of,
              continue,
              p,
              d.app_at,
              handle_app_service-dash g d.app xs s (set_services (xs ++ (s ∷ [])) w) d.dash refl,
              continue,
              d.no_method,
              ask_service-Last (λ (s : Service D). s.content_streams) xs
                  (with_mpd d.dash.manifest.content d.dash.parsed s) v refl,
              continue,
            )
            refl,
      )

  -- In a sound state, take a description in the format `5gmag_legacy` with a new service id and no
  -- delivery method, of a DASH service whose manifest is among the items. The call returns, and the
  -- item for the manifest is in the cache and leads to the service that was made; but no service id
  -- is registered for that service, the new one neither, so that nothing keeps it while the item
  -- stays.
  pub user_service-unowned :
      (w : World F D) (d : IsStreamless g usd w)
      → IsSound w.backend
      → (v : World F D) × (user_service g fiveg_mag_legacy usd w ≡ (ok tt, v))
        × (find (manifest_path_of d.dash.parsed) v.backend.cache.cache_items
            ≡ some (
                CacheItem.playlist
                  (manifest_path_of d.dash.parsed)
                  0
                  (service_manifest (length w.backend.services))))
        × (get_service d.id v.backend ≡ none)
        × All (λ e. e.1 ≢ length w.backend.services) v.backend.registry
  unfolding add_item
  user_service-unowned w d h =
      let (names, done) = user_service-streamless w d in
      (
        _,
        done,
        find-insert_self (manifest_path_of d.dash.parsed) _ w.backend.cache.cache_items,
        d.is_new,
        All-map w.backend.registry (HasStream-ne w.backend.services) h.registered,
      )

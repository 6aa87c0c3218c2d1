-- ===== src/Middleware/Unowned.antt =====
-- A service that is described and not registered, and the timer and the requests behind it:
-- src/ServiceAnnouncement.cpp, src/Service.cpp, src/Middleware.cpp and src/RestHandler.cpp together.
use rt_mbms_mw.Prelude.{ℕ, false, [], some, ◌≡◌, refl, ◌∙◌, length}
use rt_mbms_mw.Prelude.Float.{Float}
use rt_mbms_mw.Prelude.Key.{bytes_key}
use rt_mbms_mw.Prelude.Map.{find}
use rt_mbms_mw.Prelude.Result.{ok, terminate}
use rt_mbms_mw.Prelude.Text.{codes}
use rt_mbms_mw.Announcement.Announced.Dash.{manifest_path_of}
use rt_mbms_mw.Announcement.Announced.Unowned.{IsStreamless, user_service-unowned}
use rt_mbms_mw.Announcement.Bundle.{user_service}
use rt_mbms_mw.Announcement.World.{World, Setting}
use rt_mbms_mw.Announcement.Xml.{fiveg_mag_legacy}
use rt_mbms_mw.Backend.{Backend}
use rt_mbms_mw.Backend.Lifetime.{is_held, item_held, all_held, leads_to-All, items_held-find}
use rt_mbms_mw.Backend.Sound.{IsSound}
use rt_mbms_mw.Cache.{CacheItem, service_manifest}
use rt_mbms_mw.Cdn.{Http}
use rt_mbms_mw.Clients.{Json, Servers, failed}
use rt_mbms_mw.Flute.{Flute}
use rt_mbms_mw.Middleware.{Middleware, Config}
use rt_mbms_mw.Middleware.Runs.{tick_silent}
use rt_mbms_mw.Middleware.Tick.{set_backend, check_cache, tick_handler}
use rt_mbms_mw.Rest.{RestHandler, Request, rest_get, serve_file}
use rt_mbms_mw.Rest.Laws.{IsFileRequest, rest_get-file}
use rt_mbms_mw.Seamless.{erase_first}

module _ {F D : Type 0} ⦃flute : Flute F⦄ where
  rest_get-unheld :
      (r : RestHandler) (http : Http) (now : ℕ) (q : Request) (b : Backend F D) (i : CacheItem F)
      → IsFileRequest r q
      → find (erase_first q.relative_uri) b.cache.cache_items ≡ some i
      → item_held b i ≡ false
      → rest_get r http now q b ≡ terminate
  unfolding serve_file
  rest_get-unheld r http now q b i f e h =
      rest_get-file r http now q b f ∙ rw (e, serve_file, h) refl

  check_cache-unheld :
      (now : ℕ) (n : Middleware F D)
      → all_held n.backend ≡ false
      → check_cache now n ≡ (terminate, n)
  unfolding check_cache
  check_cache-unheld now n h = rw h refl

module _ {E F D J : Type 0} ⦃flute : Flute F⦄ ⦃float : Float D⦄ (g : Setting E D) (json : Json J D)
    (cfg : Config) where
  -- In a sound state, take a description in the format `5gmag_legacy` with a new service id and no
  -- delivery method, of a DASH service whose manifest is among the items. The call returns; the
  -- service that was made is destroyed, and the cache still has the closure that reads it. So a
  -- request for the manifest, which is authorized and not for the API, ends the process; and so does
  -- the next tick of the middleware, if the modem does not answer and the JSON library reads its
  -- empty array as one.
  pub unowned-terminates :
      (usd : E) (w : World F D) (d : IsStreamless g usd w) (m : Middleware F D)
      (servers : Servers J D) (r : RestHandler) (http : Http) (now : ℕ) (q : Request)
      → IsSound w.backend
      → servers.get m.rp (codes "mch_info") ≡ failed
      → json.as_array json.empty_array ≡ some []
      → IsFileRequest r q
      → erase_first q.relative_uri ≡ manifest_path_of d.dash.parsed
      → (v : World F D) × (user_service g fiveg_mag_legacy usd w ≡ (ok tt, v))
        × (rest_get r http now q v.backend ≡ terminate)
        × (tick_handler json cfg servers now (set_backend v.backend m)
            ≡ (terminate, set_backend v.backend m))
  unfolding is_held item_held all_held
  unowned-terminates usd w d m servers r http now q h e f p at =
      let (v, done, found, absent, others) = user_service-unowned g usd w d h in
      let i : CacheItem F =
        CacheItem.playlist (manifest_path_of d.dash.parsed) 0
          (service_manifest (length w.backend.services)) in
      let dead = leads_to-All (length w.backend.services) v.backend.registry others in
      let n = set_backend v.backend m in
      (
        v,
        done,
        rest_get-unheld r http now q v.backend i p (rw at found) dead,
        tick_silent g json cfg servers now n e f
            ∙ check_cache-unheld now n (
                items_held-find v.backend (manifest_path_of d.dash.parsed) i
                  v.backend.cache.cache_items found dead),
      )

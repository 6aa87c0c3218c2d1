-- ===== src/Announcement/Setup/Restart.antt =====
-- What the setup does to the streams of the delivery methods before.
use rt_mbms_mw.Prelude.{ℕ, Bool, true, false, List, [], ◌∷◌, some, ◌≡◌, refl, if◌then◌else◌}
use rt_mbms_mw.Prelude.Float.{Float}
use rt_mbms_mw.Prelude.Key.{Bytes}
use rt_mbms_mw.Prelude.Result.{terminate}
use rt_mbms_mw.Prelude.Text.{codes}
use rt_mbms_mw.Announcement.Action.{not_null, continue, settle, for_each, ◌>>=◌, ◌>>◌}
use rt_mbms_mw.Announcement.Setup.{add_streams}
use rt_mbms_mw.Announcement.Setup.Config.{broadcast_patterns, unicast_patterns, config_method}
use rt_mbms_mw.Announcement.World.{World, Setting, stream_at, service_at, stream_added, add_stream}
use rt_mbms_mw.Announcement.Xml.{
  Xml, broadcast_app_service, unicast_app_service, session_description_uri,
}
use rt_mbms_mw.Service.{Service, AnyStream, content_stream}
use rt_mbms_mw.Service.Adding.{add_running}

module _ {F D : Type 0} where
  -- The stream at the place receives by FLUTE, and its thread runs.
  pub record IsRunning (w : World F D) (place : ℕ) : Type 0 where
    pub any : AnyStream F D
    pub at_place : stream_at place w ≡ some any
    pub flute : (content_stream any).stream_type ≡ codes "FLUTE/UDP"
    pub thread : (content_stream any).flute_thread ≡ true

  module _ ⦃float : Float D⦄ where
    add_stream-running :
        (service place : ℕ) (s : Service D) (w : World F D)
        → service_at service w ≡ some s
        → IsRunning w place
        → add_stream service place w ≡ (terminate, w)
    unfolding add_stream stream_added settle
    add_stream-running service place s w e r =
        rw
          (
            e,
            stream_added,
            add_running place r.any s w.backend.streams r.at_place r.flute r.thread,
            settle,
          )
          refl

    add_streams-running :
        (service place : ℕ) (rest : List ℕ) (s : Service D) (w : World F D)
        → service_at service w ≡ some s
        → IsRunning w place
        → add_streams service (place ∷ rest) w ≡ (terminate, w)
    unfolding add_streams for_each ◌>>◌ ◌>>=◌ continue
    add_streams-running service place rest s w e r =
        rw (add_stream-running service place s w e r, continue) refl

-- A delivery method that names neither a broadcast nor a unicast service.
pub record IsBare {E : Type 0} (xml : Xml E) (method : E) : Type 0 where
  pub uri : Bytes
  pub uri_at : xml.attribute session_description_uri method ≡ some uri
  pub no_broadcast : xml.children broadcast_app_service method ≡ []
  pub no_unicast : xml.children unicast_app_service method ≡ []

if_same : {A : Type 0} {x : A} (b : Bool) → (if b then x else x) ≡ x
if_same true = refl
if_same false = refl

module _ {E F D : Type 0} ⦃float : Float D⦄ (g : Setting E D) where
  -- In the format `5gmag_bc_uc` a delivery method adds the streams of the methods before it once
  -- more. So if the first of those receives by FLUTE, and runs, the process ends, here at a method
  -- that names no service of its own and with no unicast stream made so far.
  pub config_method_restarts :
      (service : ℕ) (s : Service D) (app method : E) (place : ℕ) (rest : List ℕ) (w : World F D)
      → IsBare g.xml method
      → service_at service w ≡ some s
      → IsRunning w place
      → config_method g service app method (record { broadcast = place ∷ rest; unicast = [] }) w
        ≡ (terminate, w)
  unfolding config_method broadcast_patterns unicast_patterns add_streams for_each ◌>>◌ ◌>>=◌
      continue not_null
  config_method_restarts service s app method place rest w b e r =
      rw
        (
          b.uri_at,
          not_null,
          continue,
          b.no_broadcast,
          b.no_unicast,
          if_same w.self.seamless,
          add_streams-running service place rest s w e r,
          continue,
        )
        refl

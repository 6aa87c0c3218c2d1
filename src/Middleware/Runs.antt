-- ===== src/Middleware/Runs.antt =====
-- What holds in every state that a run of the middleware reaches.
use rt_mbms_mw.Backend.Lifetime.{all_held}
use rt_mbms_mw.Prelude.{
  ℕ, Bool, true, false, [], some, ◌≡◌, refl, subst, if◌then◌else◌, not, ◌&&◌, ◌∙◌,
}
use rt_mbms_mw.Prelude.Float.{Float}
use rt_mbms_mw.Prelude.Key.{Bytes, equal, bytes_key}
use rt_mbms_mw.Prelude.Result.{Result, ok, throw, terminate, WhenOk-eq}
use rt_mbms_mw.Prelude.Text.{codes}
use rt_mbms_mw.Announcement.Action.{Nothing, settle, continue, for_each, ◌>>=◌, ◌>>◌}
use rt_mbms_mw.Announcement.Sound.Bundle.{parse_bootstrap-Keeps, announcement_received-Keeps}
use rt_mbms_mw.Announcement.World.{World, Setting}
use rt_mbms_mw.Backend.{Backend}
use rt_mbms_mw.Backend.Segments.{segment_answered-IsSound}
use rt_mbms_mw.Backend.Sound.{IsSound}
use rt_mbms_mw.Backend.Streams.{
  stream_received-IsSound, stream_ticked-IsSound, stream_fetched-IsSound,
}
use rt_mbms_mw.Cache.{lookup_value}
use rt_mbms_mw.Cache.Laws.{check_returns}
use rt_mbms_mw.Clients.{Json, Servers, failed, take_answer, get_mch_info}
use rt_mbms_mw.Flute.{Flute}
use rt_mbms_mw.Middleware.{
  Middleware, Config, middleware_init, caught, read_local, handle_local_service_announcement,
  middleware_start,
}
use rt_mbms_mw.Middleware.Sound.{
  Step, requested, stream_file, stream_timer, segment_answer, stream_answer, announcement_file,
  timer, Reach, here, next, SoundMiddleware, init-IsSound, announced-IsSound, tick-Keeps,
}
use rt_mbms_mw.Middleware.Tick.{or_throw, lift, read_mch_info, check_cache, tick_handler}
use rt_mbms_mw.Rest.{Reply}
use rt_mbms_mw.Rest.Rows.{heap_of}
use rt_mbms_mw.Rest.Sound.{rest_get-IsSound}

module _ {E F D : Type 0} ⦃float : Float D⦄ (g : Setting E D) where
  caught-kept :
      (m : Middleware F D) (r : Result Nothing) (w : World F D)
      → IsSound w.backend
      → SoundMiddleware (caught m (r, w)).1
  unfolding caught
  caught-kept m (ok x) w h = announced-IsSound w.backend (some w.self) h
  caught-kept m (throw e) w h = announced-IsSound w.backend (some w.self) h
  caught-kept m terminate w h = announced-IsSound w.backend (some w.self) h

  read_local-IsSound :
      (read_file : Bytes → Bytes) (file tmgi : Bytes) (m : Middleware F D)
      → SoundMiddleware m
      → SoundMiddleware (read_local g read_file file tmgi m).1
  unfolding read_local
  read_local-IsSound read_file file tmgi m h =
      caught-kept m _ _ ((parse_bootstrap-Keeps g (read_file file)).at _ h)

  local-IsSound :
      (read_file : Bytes → Bytes) (cfg : Config) (m : Middleware F D)
      → SoundMiddleware m
      → SoundMiddleware (handle_local_service_announcement g read_file cfg m).1
  unfolding handle_local_service_announcement
  local-IsSound read_file cfg m h =
      let file = lookup_value cfg.local_service_bootstrap_file [] in
      let tmgi = lookup_value cfg.local_service_tmgi [] in
      chosen (read_local g read_file file tmgi m)
        (lookup_value cfg.local_service_enabled false && not (equal file []))
        (read_local-IsSound read_file file tmgi m h)
    where
      chosen :
          (x : Result Bool × Middleware F D) (b : Bool)
          → SoundMiddleware x.1
          → SoundMiddleware (if b then x else (ok false, m)).1
      chosen x true k = k
      chosen x false k = h

  start-IsSound :
      (read_file : Bytes → Bytes) (cfg : Config) (iface : Bytes)
      → SoundMiddleware (middleware_start {F = F} g read_file cfg iface).1
  unfolding middleware_start
  start-IsSound read_file cfg iface =
      local-IsSound read_file cfg (middleware_init cfg iface) (init-IsSound cfg iface)

module _ {E F D J : Type 0} ⦃flute : Flute F⦄ ⦃float : Float D⦄ (g : Setting E D) (json : Json J D)
    (cfg : Config) where
  Step-IsSound :
      {m n : Middleware F D} → Step g json cfg m n → SoundMiddleware m → SoundMiddleware n
  Step-IsSound {m} (requested r http now q reply b e) h =
      WhenOk-eq (λ (x : Reply D × Backend F D). IsSound x.1) _
        (rest_get-IsSound http now r q m.backend h) e
  Step-IsSound {m} (stream_file garbage place file b e) h =
      WhenOk-eq IsSound _ (stream_received-IsSound garbage place file m.backend h) e
  Step-IsSound {m} (stream_timer http garbage place b e) h =
      WhenOk-eq IsSound _ (stream_ticked-IsSound http garbage place m.backend h) e
  Step-IsSound {m} (segment_answer now place file b e) h =
      WhenOk-eq IsSound _ (segment_answered-IsSound now place file m.backend h) e
  Step-IsSound {m} (stream_answer garbage place file b e) h =
      WhenOk-eq IsSound _ (stream_fetched-IsSound garbage place file m.backend h) e
  Step-IsSound {m} (announcement_file a file w f e) h = announced-IsSound w.backend (some w.self) (
      subst (λ (x : Result Nothing × World F D). IsSound x.1.backend) e
        ((announcement_received-Keeps g file).at (record { self = a; backend = m.backend }) h))
  Step-IsSound {m} (timer servers now n e) h =
      subst (λ (x : Result Nothing × Middleware F D). SoundMiddleware x.1) e
        ((tick-Keeps json cfg servers now).at m h)

  Reach-IsSound :
      {m n : Middleware F D} → SoundMiddleware m → Reach g json cfg m n → SoundMiddleware n
  Reach-IsSound h here = h
  Reach-IsSound h (next r s) = Step-IsSound s (Reach-IsSound h r)

  -- In every state that a run reaches behind the constructor, by requests, received files, timers and
  -- late answers of the CDN in any order: the maps of the cache and of the services are sorted; each item of the cache
  -- stands under its location and leads to a segment, a stream or a service that was made; so do
  -- the segments of the streams and the streams of the services; and every service that is
  -- registered was made and has a stream. Objects are not freed in the store.
  pub run-IsSound :
      (read_file : Bytes → Bytes) (iface : Bytes) (n : Middleware F D)
      → Reach g json cfg (middleware_start g read_file cfg iface).1 n
      → IsSound n.backend
  run-IsSound read_file iface n r = Reach-IsSound (start-IsSound g read_file cfg iface) r

  check_cache-returns :
      (now : ℕ) (n : Middleware F D)
      → IsSound n.backend
      → all_held n.backend ≡ true
      → (k : Middleware F D) × (check_cache now n ≡ (ok tt, k))
  unfolding check_cache settle
  check_cache-returns now n h held =
      let (c, e, v) =
        check_returns (heap_of n.backend) now n.backend.cache
          (record { sorted = h.cache_in.sorted }) in
      (record n { backend = record (n.backend) { cache = c } }, rw (held, e, settle) refl)

  pub tick_silent :
      (servers : Servers J D) (now : ℕ) (n : Middleware F D)
      → servers.get n.rp (codes "mch_info") ≡ failed
      → json.as_array json.empty_array ≡ some []
      → tick_handler json cfg servers now n ≡ check_cache now n
  unfolding tick_handler get_mch_info take_answer lift read_mch_info or_throw for_each ◌>>=◌ ◌>>◌
      continue
  tick_silent servers now n e f = rw (e, take_answer, f, or_throw, continue) refl

  -- If the modem does not answer, and the JSON library reads its empty array as one, then in every
  -- state that a run reaches, and in which the services and streams that the closures of the cache
  -- read are held, the timer of the middleware returns, at any time: no item of the cache makes the
  -- check fail, so the timer is set again.
  pub run-tick_returns :
      (read_file : Bytes → Bytes) (iface : Bytes) (n : Middleware F D) (servers : Servers J D)
      (now : ℕ)
      → Reach g json cfg (middleware_start g read_file cfg iface).1 n
      → servers.get n.rp (codes "mch_info") ≡ failed
      → json.as_array json.empty_array ≡ some []
      → all_held n.backend ≡ true
      → (k : Middleware F D) × (tick_handler json cfg servers now n ≡ (ok tt, k))
  run-tick_returns read_file iface n servers now r e f held =
      let (k, p) = check_cache-returns now n (run-IsSound read_file iface n r) held in
      (k, tick_silent servers now n e f ∙ p)

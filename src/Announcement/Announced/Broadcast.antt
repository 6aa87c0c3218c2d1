-- ===== src/Announcement/Announced/Broadcast.antt =====
-- What `_setupBy5GMagLegacyFormat` makes of a DASH service with one delivery method.
use rt_mbms_mw.Prelude.{
  ℕ, Bool, true, false, ◌&&◌, List, [], ◌∷◌, ◌++◌, some, ◌≡◌, refl, ap, ◌∙◌, All-map, length, set,
  get_elem?, get_elem?-length, if◌then◌else◌,
}
use rt_mbms_mw.Prelude.Float.{Float}
use rt_mbms_mw.Prelude.Key.{Bytes, bytes_key}
use rt_mbms_mw.Prelude.Result.{Result, ok}
use rt_mbms_mw.Announcement.{Item}
use rt_mbms_mw.Announcement.Action.{for_each, continue, ◌>>=◌, ◌>>◌}
use rt_mbms_mw.Announcement.Announced.Steps.{Skips, for_each_one, IsOnly, set-length}
use rt_mbms_mw.Announcement.Setup.{is_item, is_sdp_item, apply_item, apply_items}
use rt_mbms_mw.Announcement.World.{
  World, Setting, set_streams, stream_at, stream_call_at, store_stream, on_stream, configure_stream,
}
use rt_mbms_mw.Announcement.Xml.{
  base_pattern, broadcast_app_service, delivery_method, session_description_uri,
}
use rt_mbms_mw.Service.{AnyStream, basic}
use rt_mbms_mw.Stream.{ContentStream, dash, stream_init, configure_5gbc_delivery_from_sdp}

-- A description with one delivery method, which names one broadcast service with one base pattern,
-- and whose session description is the one item of its type and URI.
pub record IsBroadcast {E D : Type 0} (g : Setting E D) (usd : E) (items : List Item) : Type 0 where
  pub method : E
  pub method_at : g.xml.children delivery_method usd ≡ method ∷ []
  pub sdp_uri : Bytes
  pub sdp_uri_at : g.xml.attribute session_description_uri method ≡ some sdp_uri
  pub element : E
  pub elements : List E
  pub element_at : g.xml.children broadcast_app_service method ≡ element ∷ elements
  pub pattern : E
  pub pattern_at : g.xml.children base_pattern element ≡ pattern ∷ []
  pub url : Bytes
  pub url_at : g.xml.get_text pattern ≡ some url
  pub sdp : Item
  pub only : IsOnly (is_sdp_item sdp_uri) items sdp

-- The stream behind its constructor and its base path.
abbrev pub based_stream : {E D : Type 0} → Setting E D → Bytes → Bytes → Bytes → ContentStream D
based_stream g url iface base = record (stream_init g.garbage url iface dash) { base_path = base }

and_false : {A : Type 0} (b : Bool) (x y : A) → (if b && false then x else y) ≡ y
and_false true x y = refl
and_false false x y = refl

module _ {F D : Type 0} where
  -- The last stream is `a`, behind those of `zs`.
  abbrev pub LastStream : List (AnyStream F D) → AnyStream F D → World F D → Type 0
  LastStream zs a w = w.backend.streams ≡ zs ++ (a ∷ [])

  pub stream_at-Last :
      (zs : List (AnyStream F D)) (a : AnyStream F D) (w : World F D)
      → LastStream zs a w
      → stream_at (length zs) w ≡ some a
  stream_at-Last zs a w e = ap (λ l. get_elem? l (length zs)) e ∙ get_elem?-length zs a

  pub on_stream-Last :
      {X : Type 0} (f : ContentStream D → Result (ContentStream D × X)) (x : X)
      (zs : List (AnyStream F D)) (s t : ContentStream D) (w : World F D)
      → LastStream zs (basic s) w
      → f s ≡ ok (t, x)
      → on_stream (length zs) f w ≡ (ok x, set_streams (zs ++ (basic t ∷ [])) w)
  unfolding on_stream stream_call_at store_stream
  on_stream-Last f x zs s t w e h =
      rw (stream_at-Last zs (basic s) w e, stream_call_at, h, store_stream)
        (ap (λ l. (ok x, set_streams l w))
          (ap (λ l. set l (length zs) (basic t)) e ∙ set-length zs (basic s) (basic t)))

  module _ ⦃float : Float D⦄ where
    item-Skips :
        (place : ℕ) (url uri : Bytes) (j : Item)
        → is_sdp_item uri j ≡ false
        → Skips {W = World F D} (apply_item place false url uri) j
    unfolding apply_item ◌>>◌ ◌>>=◌ continue
    item-Skips place url uri j n w = rw (and_false (is_item url j), n, continue) refl

    chosen_item :
        (url uri : Bytes) (i : Item) (zs : List (AnyStream F D)) (s t : ContentStream D) (c : Bool)
        (w : World F D)
        → is_sdp_item uri i ≡ true
        → configure_5gbc_delivery_from_sdp i.content s ≡ ok (t, c)
        → LastStream zs (basic s) w
        → apply_item (length zs) false url uri i w ≡ (ok tt, set_streams (zs ++ (basic t ∷ [])) w)
    unfolding apply_item configure_stream ◌>>◌ ◌>>=◌ continue
    chosen_item url uri i zs s t c w y h e =
        rw
          (
            and_false (is_item url i),
            y,
            continue,
            on_stream-Last (configure_5gbc_delivery_from_sdp i.content) c zs s t w e h,
            continue,
          )
          refl

    -- A new stream takes over the session description.
    pub apply_items-Last :
        (url uri : Bytes) (i : Item) (zs : List (AnyStream F D)) (s t : ContentStream D) (c : Bool)
        (w : World F D)
        → IsOnly (is_sdp_item uri) w.self.items i
        → configure_5gbc_delivery_from_sdp i.content s ≡ ok (t, c)
        → LastStream zs (basic s) w
        → apply_items (length zs) false url uri w ≡ (ok tt, set_streams (zs ++ (basic t ∷ [])) w)
    unfolding apply_items ◌>>=◌ continue
    apply_items-Last url uri i zs s t c w o h e =
        ap (λ l. for_each (apply_item (length zs) false url uri) l w) o.split
        ∙ for_each_one (apply_item (length zs) false url uri) o.before i o.after w _
            (All-map o.before (item-Skips (length zs) url uri) o.none_before)
            (All-map o.after (item-Skips (length zs) url uri) o.none_after)
            (chosen_item url uri i zs s t c w o.passes h e)

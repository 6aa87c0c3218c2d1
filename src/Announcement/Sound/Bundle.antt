-- ===== src/Announcement/Sound/Bundle.antt =====
-- An announcement keeps the shared state sound, whatever it says and however it ends.
use rt_mbms_mw.Prelude.{
  ℕ, Bool, true, false, List, [], ◌∷◌, ◌++◌, Option, none, some, ◌≡◌, refl, subst, sym,
  All-get_elem?, length,
}
use rt_mbms_mw.Prelude.Float.{Float}
use rt_mbms_mw.Prelude.Key.{Bytes, bytes_key, equal}
use rt_mbms_mw.Announcement.{Item}
use rt_mbms_mw.Announcement.Action.{Action, Nothing, return, continue, not_null, change, ◌>>=◌}
use rt_mbms_mw.Announcement.Bundle.{
  set_service, found_or_new, read_name, register_service, parsed_uri, described, add_items,
  app_service_item, handle_app_service, setup, publish, user_service, handle_bundle, if_type,
  parse_bootstrap,
}
use rt_mbms_mw.Announcement.Envelope.{
  set_items, write_item, update_item, envelope_item, envelope_items, envelope_element,
  handle_mbms_envelope, read_date,
}
use rt_mbms_mw.Announcement.Keeps.{
  Keeps, Keeps-return, keeps_rules, Keeps-change, Keeps-if, Keeps-bind, Keeps-then,
}
use rt_mbms_mw.Announcement.Receiver.{
  announcement_received, raw_of, unzipped, set_toi, set_raw_content,
}
use rt_mbms_mw.Announcement.Sound.{SoundWorld, read_service_manifest-Keeps}
use rt_mbms_mw.Announcement.Sound.Setup.{config-Keeps, legacy-Keeps, alternative-Keeps}
use rt_mbms_mw.Announcement.World.{World, Setting, service_at, ask_service, change_service}
use rt_mbms_mw.Backend.Services.{set_service-IsSound, new_service-IsSound, registered-IsSound}
use rt_mbms_mw.Backend.Sound.{ServiceIn, IsSound}
use rt_mbms_mw.Flute.{Flute}
use rt_mbms_mw.Seamless.{Uri}
use rt_mbms_mw.Service.{Service, service_init, add_name, set_delivery_protocol_from_mime_type}

module _ {F D : Type 0} where
  abbrev KeepsSound : {X : Type 0} → Action (World F D) X → Type 0
  KeepsSound m = Keeps (SoundWorld {F = F} {D = D}) m

  -- What an announcement writes of its own members does not count.
  self-Keeps :
      (f : World F D → World F D)
      → ((w : World F D) → (f w).backend ≡ w.backend)
      → KeepsSound (change f)
  self-Keeps f same = Keeps-change f (λ w h. subst IsSound (sym (same w)) h)

  change_service-Keeps :
      (f : Service D → Service D) (place : ℕ)
      → ((s : Service D) → (f s).content_streams ≡ s.content_streams)
      → KeepsSound (change_service f place)
  unfolding change_service ask_service ◌>>=◌ continue not_null
  change_service-Keeps f place same = record { at = λ w h. changed w h (service_at place w) refl }
    where
      changed :
          (w : World F D)
          → SoundWorld w
          → (o : Option (Service D)) → service_at place w ≡ o
          → SoundWorld (change_service f place w).1
      changed w h none e = rw (e, continue, not_null) h
      changed w h (some s) e =
          rw (e, continue, not_null)
            (set_service-IsSound w.backend place s (f s) e (λ ne. rw (same s) ne)
              (rw (same s) (
                All-get_elem? (ServiceIn (length w.backend.streams)) w.backend.services place
                  h.services_in e))
              h)

  publish-kept :
      (id : Bytes) (place : ℕ) (new : Bool) (s : Service D) (w : World F D) (l : List (Bytes × ℕ))
      → service_at place w ≡ some s
      → s.content_streams ≡ l
      → SoundWorld w
      → SoundWorld (publish id place new l w).1
  unfolding publish set_service
  publish-kept id place true s w [] e f h = h
  publish-kept id place true s w (c ∷ cs) e f h =
      registered-IsSound w.backend id place
        (record { service = s; at_place = e; ne_nil = rw f (λ n. cc) }) h
  publish-kept id place false s w [] e f h = h
  publish-kept id place false s w (c ∷ cs) e f h = h

  -- A new service is registered only if it has a stream.
  published-Keeps :
      (id : Bytes) (place : ℕ) (new : Bool)
      → KeepsSound
          (ask_service (λ s. s.content_streams) place >>= λ streams. publish id place new streams)
  unfolding ask_service ◌>>=◌ continue not_null
  published-Keeps id place new = record { at = λ w h. asked w h (service_at place w) refl }
    where
      asked :
          (w : World F D)
          → SoundWorld w
          → (o : Option (Service D)) → service_at place w ≡ o
          → SoundWorld
              ((ask_service (λ s. s.content_streams) place
                  >>= (λ streams. publish id place new streams))
                w).1
      asked w h none e = rw (e, continue, not_null) h
      asked w h (some s) e = rw (e, continue, not_null) (publish-kept id place new s w _ e refl h)

  found_or_new-Keeps : {E : Type 0} (g : Setting E D) (o : Option ℕ) → KeepsSound (found_or_new g o)
  unfolding found_or_new
  found_or_new-Keeps g none = record {
    at = λ w h. new_service-IsSound w.backend (service_init g.garbage_protocol) refl h;
  }
  found_or_new-Keeps g (some place) = record { at = λ w h. h }

  add_name-Keeps :
      (name language : Bytes) (place : ℕ)
      → KeepsSound (change_service (add_name name language) place)
  unfolding add_name
  add_name-Keeps name language place =
      change_service-Keeps (add_name name language) place (λ s. refl)

  set_protocol-Keeps :
      (mime : Bytes) (place : ℕ)
      → KeepsSound (change_service (set_delivery_protocol_from_mime_type mime) place)
  unfolding set_delivery_protocol_from_mime_type
  set_protocol-Keeps mime place =
      change_service-Keeps (set_delivery_protocol_from_mime_type mime) place (λ s. refl)

  write_item-Keeps : (l : List Item) (i : Item) (r : List Item) → KeepsSound (write_item l i r)
  unfolding write_item
  write_item-Keeps l i r = search (keeps_rules, self-Keeps (set_items (l ++ (i ∷ r))) (λ w. refl))

  module _ {E : Type 0} (g : Setting E D) where
    read_name-Keeps : (place : ℕ) (o p : Option Bytes) → KeepsSound (read_name place o p)
    unfolding read_name
    read_name-Keeps place (some name) (some language) = add_name-Keeps name language place
    read_name-Keeps place none language = search keeps_rules
    read_name-Keeps place (some name) none = search keeps_rules

    register_service-Keeps : (usd : E) (id : Bytes) → KeepsSound (register_service g usd id)
    unfolding register_service
    register_service-Keeps usd id = search (keeps_rules, found_or_new-Keeps, read_name-Keeps)

    parsed_uri-Keeps : (o : Option Uri) → KeepsSound (parsed_uri o)
    unfolding parsed_uri
    parsed_uri-Keeps none = search keeps_rules
    parsed_uri-Keeps (some u) = search keeps_rules

    read_date-Keeps : (s : Bytes) → KeepsSound (read_date g s)
    unfolding read_date
    read_date-Keeps s = record { at = λ w h. h }

    update_item-Keeps :
        (e : E) (l : List Item) (i : Item) (r : List Item) → KeepsSound (update_item g e l i r)
    unfolding update_item
    update_item-Keeps e l i r = search (keeps_rules, write_item-Keeps, read_date-Keeps) depth 12

    envelope_item-Keeps :
        (e : E) (l : List Item) (i : Item) (r : List Item) → KeepsSound (envelope_item g e l i r)
    unfolding envelope_item
    envelope_item-Keeps e l i r = search (keeps_rules, update_item-Keeps)

    envelope_items-Keeps : (e : E) (l r : List Item) → KeepsSound (envelope_items g e l r)
    unfolding envelope_items
    envelope_items-Keeps e l [] = search keeps_rules
    envelope_items-Keeps e l (i ∷ r) =
        Keeps-bind (envelope_item g e l i r) _ (envelope_item-Keeps e l i r)
          (λ j. envelope_items-Keeps e (l ++ (j ∷ [])) r)

    envelope_element-Keeps : (e : E) → KeepsSound (envelope_element g e)
    unfolding envelope_element
    envelope_element-Keeps e = search (keeps_rules, envelope_items-Keeps)

    envelope-Keeps : (i : Item) → KeepsSound (handle_mbms_envelope g i)
    unfolding handle_mbms_envelope
    envelope-Keeps i = search (keeps_rules, envelope_element-Keeps)

    module _ ⦃float : Float D⦄ where
      described-Keeps : (service : ℕ) (i : Item) → KeepsSound (described g service i)
      unfolding described
      described-Keeps service i =
          Keeps-bind (parsed_uri (g.parse_uri i.uri)) _ (parsed_uri-Keeps _) (λ u.
            Keeps-then _ _ (read_service_manifest-Keeps service i.content _)
              (self-Keeps _ (λ w. refl)))

      app_service_item-Keeps :
          (app : E) (service : ℕ) (i : Item) → KeepsSound (app_service_item g app service i)
      unfolding app_service_item
      app_service_item-Keeps app service i = search (keeps_rules, described-Keeps)

      handle_app_service-Keeps :
          (o : Option E) (service : ℕ) → KeepsSound (handle_app_service g o service)
      unfolding handle_app_service
      handle_app_service-Keeps o service =
          search (keeps_rules, set_protocol-Keeps, app_service_item-Keeps) depth 9

      setup-Keeps :
          (format : Bytes) (app : E) (service : ℕ) (usd : E)
          → KeepsSound (setup g format app service usd)
      unfolding setup
      setup-Keeps format app service usd =
          search (keeps_rules, config-Keeps, legacy-Keeps, alternative-Keeps)

      user_service-Keeps : (format : Bytes) (usd : E) → KeepsSound (user_service g format usd)
      unfolding user_service
      user_service-Keeps format usd =
          search
            (
              published-Keeps, keeps_rules, register_service-Keeps, handle_app_service-Keeps,
              setup-Keeps,
            )
            depth 9

      bundle-Keeps : (i : Item) (format : Bytes) → KeepsSound (handle_bundle g i format)
      unfolding handle_bundle
      bundle-Keeps i format = search (keeps_rules, user_service-Keeps)

      if_type-Keeps :
          (type : Bytes) (f : Item → Action (World F D) Nothing) (i : Item)
          → ((j : Item) → KeepsSound (f j))
          → KeepsSound (if_type type f i)
      unfolding if_type
      if_type-Keeps type f i k =
          Keeps-if (equal i.content_type type) (f i) (return tt) (k i) (Keeps-return tt)

      add_items-Keeps : (str : Bytes) → KeepsSound (add_items g str)
      unfolding add_items
      add_items-Keeps str = self-Keeps _ (λ w. refl)

      pub parse_bootstrap-Keeps : (str : Bytes) → KeepsSound (parse_bootstrap g str)
      unfolding parse_bootstrap
      parse_bootstrap-Keeps str =
          search (keeps_rules, add_items-Keeps, if_type-Keeps, envelope-Keeps, bundle-Keeps) depth 9

      module _ ⦃flute : Flute F⦄ where
        unzipped-Keeps : (o : Option Bytes) → KeepsSound (unzipped o)
        unfolding unzipped
        unzipped-Keeps none = search keeps_rules
        unzipped-Keeps (some s) = search keeps_rules

        raw_of-Keeps : (file : F) → KeepsSound (raw_of g file)
        unfolding raw_of
        raw_of-Keeps file = search (keeps_rules, unzipped-Keeps)

        set_toi-Keeps : (toi : ℕ) → KeepsSound (set_toi toi)
        unfolding set_toi
        set_toi-Keeps toi = self-Keeps _ (λ w. refl)

        set_raw_content-Keeps : (raw : Bytes) → KeepsSound (set_raw_content raw)
        unfolding set_raw_content
        set_raw_content-Keeps raw = self-Keeps _ (λ w. refl)

        pub announcement_received-Keeps : (file : F) → KeepsSound (announcement_received g file)
        unfolding announcement_received
        announcement_received-Keeps file =
            search
              (
                keeps_rules, set_toi-Keeps, set_raw_content-Keeps, raw_of-Keeps,
                parse_bootstrap-Keeps,
              )
              depth 9

-- ===== src/Service/Matching.antt =====
-- The MIME type of a service, and the attributes that it gives a stream.
use rt_mbms_mw.Prelude.{
  ℕ, Bool, true, false, List, [], ◌∷◌, ◌++◌, Option, none, some, ◌≡◌, refl, sym, ap, ◌∙◌, inl, inr,
  arith, if◌then◌else◌, Bool-cases,
}
use rt_mbms_mw.Prelude.Key.{Bytes, bytes_key, equal}
use rt_mbms_mw.Prelude.Text.{Lacks}
use rt_mbms_mw.Hls.Primary.{PrimaryStream}
use rt_mbms_mw.Stream.{ContentStream}
use rt_mbms_mw.Service.{
  Service, before_first, protocol_of, set_delivery_protocol_from_mime_type, set_attributes,
  match_streams,
}

abbrev or_else : {A : Type 0} → Option A → Option A → Option A
or_else (some a) o = some a
or_else none o = o

-- The last entry of a playlist with a URI.
pub last_with : {D : Type 0} → Bytes → List (PrimaryStream D) → Option (PrimaryStream D)
last_with uri [] = none
last_with uri (p ∷ ps) = or_else (last_with uri ps) (if equal p.uri uri then some p else none)

pub before_first-append : (c : ℕ) (s t : Bytes) → Lacks c s → before_first c (s ++ (c ∷ t)) ≡ s
unfolding before_first
before_first-append c [] t h = ground arith
before_first-append c (x ∷ s) t (e, h) = rw (e, before_first-append c s t h)

before_first-Lacks : (c : ℕ) (s : Bytes) → Lacks c s → before_first c s ≡ s
unfolding before_first
before_first-Lacks c [] h = refl
before_first-Lacks c (x ∷ s) (e, h) = rw (e, before_first-Lacks c s h)

module _ {D : Type 0} where
  -- A profile behind a semicolon does not count: the protocol is that of the type before it, which
  -- has no semicolon.
  pub set_delivery_protocol_profile :
      (type profile : Bytes) (s : Service D)
      → Lacks b';' type
      → (set_delivery_protocol_from_mime_type (type ++ (b';' ∷ profile)) s
          ≡ set_delivery_protocol_from_mime_type type s)
        × ((set_delivery_protocol_from_mime_type type s).delivery_protocol ≡ protocol_of type)
  unfolding set_delivery_protocol_from_mime_type
  set_delivery_protocol_profile type profile s h = (
    rw (before_first-append b';' type profile h, before_first-Lacks b';' type h),
    rw (before_first-Lacks b';' type h),
  )

  -- A stream with the attributes of the entry that was found.
  abbrev pub with_found : Option (PrimaryStream D) → ContentStream D → ContentStream D
  with_found none s = s
  with_found (some q) s = set_attributes q s

  later_first :
      (p : PrimaryStream D) (s : ContentStream D) (behind : Option (PrimaryStream D))
      → with_found behind (set_attributes p s) ≡ with_found (or_else behind (some p)) s
  later_first p s none = refl
  later_first p s (some q) = refl

  later_only :
      (s : ContentStream D) (behind : Option (PrimaryStream D))
      → with_found behind s ≡ with_found (or_else behind none) s
  later_only s none = refl
  later_only s (some q) = refl

  last_with-cons :
      (uri : Bytes) (p : PrimaryStream D) (ps : List (PrimaryStream D)) (b : Bool)
      → equal p.uri uri ≡ b
      → or_else (last_with uri ps) (if b then some p else none) ≡ last_with uri (p ∷ ps)
  unfolding last_with
  last_with-cons uri p ps b e =
      ap (λ c. or_else (last_with uri ps) (if c then some p else none)) (sym e)

  -- The attributes come from the last entry of the primary playlist with the path of the stream; if
  -- there is none, the stream stays as it is.
  pub match_streams-last :
      (ps : List (PrimaryStream D)) (s : ContentStream D)
      → match_streams ps s ≡ with_found (last_with s.playlist_path ps) s
  unfolding match_streams last_with
  match_streams-last [] s = refl
  match_streams-last (p ∷ ps) s = elim (Bool-cases (equal p.uri s.playlist_path)) [
    | inl same ↦
        ap (λ b. match_streams ps (if b then set_attributes p s else s)) same
        ∙ match_streams-last ps (set_attributes p s)
        ∙ later_first p s (last_with s.playlist_path ps)
        ∙ ap (λ o. with_found o s) (last_with-cons s.playlist_path p ps true same)
    | inr other ↦
        ap (λ b. match_streams ps (if b then set_attributes p s else s)) other
        ∙ match_streams-last ps s
        ∙ later_only s (last_with s.playlist_path ps)
        ∙ ap (λ o. with_found o s) (last_with-cons s.playlist_path p ps false other)
  ]

  -- The type and the thread are not touched.
  pub match_streams-session :
      (ps : List (PrimaryStream D)) (s : ContentStream D)
      → ((match_streams ps s).stream_type ≡ s.stream_type)
        × ((match_streams ps s).flute_thread ≡ s.flute_thread)
        × ((match_streams ps s).playlist_path ≡ s.playlist_path)
  match_streams-session ps s =
      rw (match_streams-last ps s) (found_session (last_with s.playlist_path ps))
    where
      found_session :
          (o : Option (PrimaryStream D))
          → ((with_found o s).stream_type ≡ s.stream_type)
            × ((with_found o s).flute_thread ≡ s.flute_thread)
            × ((with_found o s).playlist_path ≡ s.playlist_path)
      found_session none = (refl, refl, refl)
      found_session (some q) = (refl, refl, refl)

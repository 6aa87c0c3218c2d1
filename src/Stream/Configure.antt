-- ===== src/Stream/Configure.antt =====
-- What `configure_5gbc_delivery_from_sdp` makes of a session description.
use rt_mbms_mw.Prelude.{
  ℕ, ◌<◌, ◌^◌, true, false, List, [], ◌∷◌, ◌++◌, none, ◌≡◌, refl, ap, ◌∙◌, arith, All,
}
use rt_mbms_mw.Prelude.Key.{Bytes, equal_iff}
use rt_mbms_mw.Prelude.Result.{ok, ◌>>=◌, Result_map}
use rt_mbms_mw.Prelude.Text.{lines, lines-append, Lacks}
use rt_mbms_mw.Stream.Sdp.{all_dots, some_dots, other, sdp_line, SdpLine}
use rt_mbms_mw.Stream.{
  ContentStream, configure_line, configure_lines, is_configured, configure_5gbc_delivery_from_sdp,
}
use rt_mbms_mw.Stream.Lines.{
  IsToken, IsAddress, connection_line, media_line, tsi_line, sdp_line-connection, sdp_line-media,
  sdp_line-tsi, stoul-show_nat,
}

all_dots-return : (v : Bytes) → all_dots (v ++ (b'\r' ∷ [])) ≡ false
unfolding all_dots
all_dots-return [] = refl
all_dots-return (c ∷ v) = ground (arith, all_dots-return v)

some_dots-return : (v : Bytes) → some_dots (v ++ (b'\r' ∷ [])) ≡ none
unfolding some_dots
some_dots-return [] = refl
some_dots-return (c ∷ v) = rw (all_dots-return (c ∷ v))

sdp_line-return : (l : Bytes) → sdp_line (l ++ (b'\r' ∷ [])) ≡ other
unfolding sdp_line
sdp_line-return [] = refl
sdp_line-return (f ∷ []) = ground arith
sdp_line-return (f ∷ e ∷ v) = ground (arith, some_dots-return v)

-- A description with the line ends `\r\n`.
abbrev pub crlf_text : List Bytes → Bytes
crlf_text [] = []
crlf_text (l ∷ ls) = (l ++ (b'\r' ∷ [])) ++ (b'\n' ∷ crlf_text ls)

Lacks-return : (l : Bytes) → Lacks b'\n' l → Lacks b'\n' (l ++ (b'\r' ∷ []))
Lacks-return [] h = (refl, tt)
Lacks-return (c ∷ l) (e, h) = (e, Lacks-return l h)

module _ {D : Type 0} where
  configure_lines-crlf :
      (ls : List Bytes) (s : ContentStream D)
      → All (Lacks b'\n') ls
      → configure_lines s (lines (crlf_text ls)) ≡ ok s
  unfolding configure_lines configure_line
  configure_lines-crlf [] s h = unfold lines in refl
  configure_lines-crlf (l ∷ ls) s (e, h) =
      rw
        (
          lines-append (l ++ (b'\r' ∷ [])) (crlf_text ls) (Lacks-return l e),
          configure_lines,
          sdp_line-return l,
        )
        (configure_lines-crlf ls s h)

  -- Nothing is read from a description whose lines end in `\r\n`, as RFC 4566 asks: the stream stays
  -- as it is, and the result is what it would be without the description.
  pub configure_crlf :
      (ls : List Bytes) (s : ContentStream D)
      → All (Lacks b'\n') ls
      → configure_5gbc_delivery_from_sdp (crlf_text ls) s ≡ ok (s, is_configured s)
  unfolding configure_5gbc_delivery_from_sdp
  configure_crlf ls s h =
      ap (Result_map (λ (t : ContentStream D). (t, is_configured t))) (configure_lines-crlf ls s h)

-- A line that assigns nothing.
pub record IsIgnored (l : Bytes) : Type 0 where
  pub one_line : Lacks b'\n' l
  pub assigns_nothing : sdp_line l ≡ other

-- A description with the line ends `\n`.
abbrev pub lf_text : List Bytes → Bytes
lf_text [] = []
lf_text (l ∷ ls) = l ++ (b'\n' ∷ lf_text ls)

lines-lf_text : (ls : List Bytes) → All (Lacks b'\n') ls → lines (lf_text ls) ≡ ls
lines-lf_text [] h = unfold lines in refl
lines-lf_text (l ∷ ls) (e, h) = lines-append l (lf_text ls) e ∙ ap (◌∷◌ l) (lines-lf_text ls h)

-- The lines of a session for FLUTE, with other lines round them.
pub record Description : Type 0 where
  pub addr : Bytes
  pub port : Bytes
  pub type : Bytes
  pub number : ℕ
  pub before : List Bytes
  pub behind_connection : List Bytes
  pub behind_media : List Bytes
  pub behind_tsi : List Bytes

abbrev pub description_lines : Description → List Bytes
description_lines d =
    d.before
    ++ (connection_line d.addr
        ∷ (d.behind_connection
            ++ (media_line d.port d.type
                ∷ (d.behind_media ++ (tsi_line d.number ∷ (d.behind_tsi ++ []))))))

-- The values can be read, and the other lines assign nothing.
pub record IsDescription (d : Description) : Type 0 where
  pub is_address : IsAddress d.addr
  pub port_token : IsToken d.port
  pub type_token : IsToken d.type
  pub number_lt : d.number < 2 ^ 64
  pub before_ignored : All IsIgnored d.before
  pub behind_connection_ignored : All IsIgnored d.behind_connection
  pub behind_media_ignored : All IsIgnored d.behind_media
  pub behind_tsi_ignored : All IsIgnored d.behind_tsi
  pub whole_lines : All (Lacks b'\n') (description_lines d)

module _ {D : Type 0} where
  configure_lines-ignored :
      (ls rest : List Bytes) (s : ContentStream D)
      → All IsIgnored ls
      → configure_lines s (ls ++ rest) ≡ configure_lines s rest
  unfolding configure_lines configure_line
  configure_lines-ignored [] rest s h = refl
  configure_lines-ignored (l ∷ ls) rest s (i, h) =
      rw i.assigns_nothing (configure_lines-ignored ls rest s h)

  configure_lines-line :
      (l : Bytes) (v : SdpLine) (rest : List Bytes) (s : ContentStream D)
      → sdp_line l ≡ v
      → configure_lines s (l ∷ rest) ≡ (configure_line s v >>= λ t. configure_lines t rest)
  unfolding configure_lines
  configure_lines-line l v rest s e = rw e

  -- What the description says of the session.
  abbrev pub with_session : Description → ContentStream D → ContentStream D
  with_session d s = record s {
    stream_type = d.type;
    stream_mcast_addr = d.addr;
    stream_mcast_port = d.port;
    stream_flute_tsi = d.number;
  }

  configure_lines-description :
      (d : Description) (s : ContentStream D)
      → IsDescription d
      → configure_lines s (description_lines d) ≡ ok (with_session d s)
  unfolding configure_line
  configure_lines-description d s h =
      let a = record s { stream_mcast_addr = d.addr } in
      let b = record a { stream_mcast_port = d.port; stream_type = d.type } in
      configure_lines-ignored d.before _ s h.before_ignored
      ∙ configure_lines-line _ _ _ s (sdp_line-connection d.addr h.is_address)
      ∙ configure_lines-ignored d.behind_connection _ a h.behind_connection_ignored
      ∙ configure_lines-line _ _ _ a (sdp_line-media d.port d.type h.port_token h.type_token)
      ∙ configure_lines-ignored d.behind_media _ b h.behind_media_ignored
      ∙ configure_lines-line _ _ _ b (sdp_line-tsi d.number)
      ∙ rw (stoul-show_nat d.number h.number_lt) (
          configure_lines-ignored d.behind_tsi [] (with_session d s) h.behind_tsi_ignored
          ∙ unfold configure_lines in refl)

  is_configured_session :
      (d : Description) (s : ContentStream D)
      → IsDescription d
      → is_configured (with_session d s) ≡ true
  unfolding is_configured
  is_configured_session d s h = ground (
    arith,
    equal_iff d.addr [],
    equal_iff d.port [],
    equal_iff d.type [],
    h.is_address.ne_nil,
    h.port_token.ne_nil,
    h.type_token.ne_nil,
  )

  -- From a description with `\n` line ends that has a `c=IN IP4`, an `m=application` and an
  -- `a=flute-tsi` line in this order, with a readable address, port, protocol and number below 2^64,
  -- and otherwise lines that assign nothing, the stream takes these four values and keeps all else,
  -- and the result is true.
  pub configure_description :
      (d : Description) (s : ContentStream D)
      → IsDescription d
      → configure_5gbc_delivery_from_sdp (lf_text (description_lines d)) s
        ≡ ok (with_session d s, true)
  unfolding configure_5gbc_delivery_from_sdp
  configure_description d s h =
      ap (λ ls. Result_map (λ (t : ContentStream D). (t, is_configured t)) (configure_lines s ls))
        (lines-lf_text (description_lines d) h.whole_lines)
      ∙ rw (configure_lines-description d s h) (ap ok (ground (arith, is_configured_session d s h)))

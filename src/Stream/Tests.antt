-- ===== src/Stream/Tests.antt =====
-- Runs of the configuration of a stream, and its theorems at concrete descriptions.
use rt_mbms_mw.Prelude.{true, false, [], ◌∷◌, ◌≡◌, refl, arith}
use rt_mbms_mw.Prelude.Decimal.{show_nat}
use rt_mbms_mw.Prelude.Key.{Bytes}
use rt_mbms_mw.Prelude.Result.{ok}
use rt_mbms_mw.Prelude.Text.{codes, Lacks, has-Lacks, has}
use rt_mbms_mw.Stream.{
  ContentStream, hls, stream_init, is_configured, configure_5gbc_delivery_from_sdp,
}
use rt_mbms_mw.Stream.Sdp.{sdp_line, other, all_dots}
use rt_mbms_mw.Stream.Lines.{connection_line, media_line, tsi_line}
use rt_mbms_mw.Stream.Configure.{
  crlf_text, configure_crlf, lf_text, Description, IsDescription, IsIgnored, description_lines,
  with_session, configure_description,
}

abbrev fresh : ContentStream Bytes
fresh = stream_init (record { bandwidth = 0; frame_rate = [] }) (codes "base/") (codes "lo") hls

abbrev session : Description
session = record {
  addr = codes "232.1.1.1";
  port = codes "9988";
  type = codes "FLUTE/UDP";
  number = 16;
  before = codes "v=0" ∷ [];
  behind_connection = [];
  behind_media = [];
  behind_tsi = codes "a=flute-ch:1" ∷ [];
}

ignored : (l : Bytes) → has b'\n' l ≡ false → sdp_line l ≡ other → IsIgnored l
ignored l e i = record { one_line = has-Lacks b'\n' l e; assigns_nothing = i }

whole : (l : Bytes) → has b'\n' l ≡ false → Lacks b'\n' l
whole l = has-Lacks b'\n' l

session-IsDescription : IsDescription session
unfolding sdp_line has all_dots show_nat
session-IsDescription = record {
  is_address = record {
    ne_nil = λ e. cc;
    chars = (refl, (refl, (refl, (refl, (refl, (refl, (refl, (refl, (refl, tt)))))))));
  };
  port_token = record {
    ne_nil = λ e. cc;
    dots = refl;
    no_space = has-Lacks b' ' session.port refl;
  };
  type_token = record {
    ne_nil = λ e. cc;
    dots = refl;
    no_space = has-Lacks b' ' session.type refl;
  };
  number_lt = omega arith;
  before_ignored = (ignored (codes "v=0") refl refl, tt);
  behind_connection_ignored = tt;
  behind_media_ignored = tt;
  behind_tsi_ignored = (ignored (codes "a=flute-ch:1") refl refl, tt);
  whole_lines = (
    whole (codes "v=0") refl,
    (
      whole (connection_line session.addr) refl,
      (
        whole (media_line session.port session.type) refl,
        (whole (tsi_line session.number) refl, (whole (codes "a=flute-ch:1") refl, tt)),
      ),
    ),
  );
}

configure_description_example :
    configure_5gbc_delivery_from_sdp (lf_text (description_lines session)) fresh
    ≡ ok (with_session session fresh, true)
configure_description_example = configure_description session fresh session-IsDescription

configure_crlf_example :
    configure_5gbc_delivery_from_sdp (crlf_text (codes "c=IN IP4 232.1.1.1" ∷ [])) fresh
    ≡ ok (fresh, is_configured fresh)
configure_crlf_example =
    configure_crlf (codes "c=IN IP4 232.1.1.1" ∷ []) fresh
      (whole (codes "c=IN IP4 232.1.1.1") (unfold has in refl), tt)

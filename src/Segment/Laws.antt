-- ===== src/Segment/Laws.antt =====
-- Where the bytes of a segment come from.
use rt_mbms_mw.Prelude.{
  ℕ, true, none, some, ◌≡◌, refl, arith, Option-cases, ◌⊎◌, inl, inr, length, ◌%◌, ◌^◌,
}
use rt_mbms_mw.Prelude.Key.{Bytes}
use rt_mbms_mw.Cdn.{Http, response, CdnClient, cdn_get}
use rt_mbms_mw.Flute.{Flute}
use rt_mbms_mw.Segment.{
  broadcast, cdn, unavailable, Segment, set_flute_file, fetch_from_cdn, segment_buffer,
  segment_content_length, data_source, complete_file,
}

module _ {F D : Type 0} ⦃flute : Flute F⦄ where
  -- Either the segment reports no source and the length 0, and `buffer` returns no bytes; or it
  -- reports the broadcast or the CDN, and `buffer` returns bytes and does not change it.
  pub segment_buffer-data_source :
      (http : Http) (now : ℕ) (s : Segment F D)
      → ((data_source s ≡ unavailable)
          × (segment_content_length s ≡ 0)
          × ((segment_buffer http now s).0 ≡ none))
        ⊎ (((data_source s ≡ broadcast) ⊎ (data_source s ≡ cdn))
            × ((b : Bytes) × (segment_buffer http now s ≡ (some b, s))))
  unfolding segment_buffer data_source segment_content_length
  segment_buffer-data_source http now s = elim (Option-cases (complete_file s.flute_file)) [
    | inr (f, e) ↦ inr (inl (ground arith), (flute.buffer f, ground arith))
    | inl e ↦ elim (Option-cases s.cdn_file) [
      | inr (f, d) ↦ inr (inr (ground arith), (f.buffer, ground arith))
      | inl d ↦ inl (ground arith, ground arith, ground arith)
    ]
  ]

  -- A complete broadcast file that is set goes before a file from the CDN, whatever has been
  -- fetched: its bytes are returned, the source is the broadcast, and the time is the file's.
  pub set_flute_file-buffer :
      (http : Http) (now : ℕ) (f : F) (s : Segment F D)
      → flute.complete f ≡ true
      → (segment_buffer http now (set_flute_file f s) ≡ (some (flute.buffer f), set_flute_file f s))
        × (data_source (set_flute_file f s) ≡ broadcast)
        × ((set_flute_file f s).content_received_at ≡ flute.received_at f)
  unfolding set_flute_file segment_buffer data_source
  set_flute_file-buffer http now f s h = (ground arith, ground arith, refl)

  -- Of a segment with no data and a CDN client, the first call finds nothing; if the CDN answers
  -- 200 to it, the second call returns the body, the source is the CDN, the time is that of the
  -- first call, and the length is that of the body modulo 2^32.
  pub segment_buffer_retry :
      (http : Http) (now later : ℕ) (s : Segment F D) (client : CdnClient) (body : Bytes)
      → data_source s ≡ unavailable
      → s.cdn_client ≡ some client
      → http client.base_url s.content_location ≡ response 200 body
      → let t = (segment_buffer http now s).1 in
        ((segment_buffer http now s).0 ≡ none)
        × (segment_buffer http later t ≡ (some body, t))
        × (data_source t ≡ cdn)
        × (t.content_received_at ≡ now)
        × (segment_content_length t ≡ length body % 2 ^ 32)
  unfolding segment_buffer data_source fetch_from_cdn cdn_get segment_content_length
  segment_buffer_retry http now later s client body u c r =
      (ground arith, ground arith, ground arith, ground arith, ground arith)

-- ===== src/Hls.antt =====
-- The HLS playlists, src/HlsMediaPlaylist.cpp and src/HlsPrimaryPlaylist.cpp.
pub mod Media
pub mod Primary

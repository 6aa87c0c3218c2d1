-- ===== src/Lib.antt =====
-- The MBMS middleware of the 5G-MAG reference tools (src/). The middleware receives files over
-- 5G broadcast (FLUTE) and from a content delivery network (CDN), keeps them in a cache, and serves
-- playlists, manifests and media segments from it.
--
-- The parts and the files that model them:
-- * Hls/Media.antt, src/HlsMediaPlaylist.cpp: the constructor from a text is `media_parse`, with one
--   function for the lines of each kind and `media_line` for a round of its loop; `to_string` is
--   `media_to_string`.
-- * Hls/Primary.antt and Hls/Primary/Parameters.antt, src/HlsPrimaryPlaylist.cpp: `primary_parse`,
--   `parse_parameters` and `primary_to_string`.
-- * Cdn.antt and Segment.antt, src/seamless/CdnClient.cpp, src/seamless/CdnFile.cpp and
--   src/seamless/Segment.cpp: a segment has a broadcast file, a CDN file or none, and `buffer` asks
--   the CDN if it has none. Segment/Order.antt is about the orders in which its data may come in.
-- * Cache.antt, src/CacheItems.h and src/CacheManagement.cpp: the map of the items, and the check
--   that runs once a second, with its two loops.
-- * Stream.antt and Stream/Sdp.antt, src/ContentStream.cpp: a stream, which is configured from a
--   session description and puts the files it receives into the cache.
-- * Seamless.antt, src/seamless/SeamlessContentStream.cpp: the stream that follows the playlists of
--   both sources, keeps a window of segments and writes a playlist of its own. `StreamState` has
--   what its operations change: the stream, the segments, and the cache.
--   Seamless/Served.antt and Seamless/Playlist.antt are about the items of the cache that belong to
--   its playlist, Seamless/Others.antt about the other items, and Seamless/Ends.antt about the loop
--   that drops segments.
-- * Service.antt, src/Service.cpp and src/DashManifest.cpp: a service has streams, and writes the
--   manifest that lists them.
-- * Announcement.antt and Announcement/Xml, World, Envelope, Bundle, Setup and Receiver.antt,
--   src/ServiceAnnouncement.cpp and src/Constants.h: the items, the metadata envelope, the service
--   descriptions, the registration of services, the three set-up formats (Setup/Config, Legacy and
--   Alternative.antt) and the receiver. Each call of the source is an `Action` on a `World`, the
--   announcement and the shared state beside it (Announcement/Action.antt): it gives the way in
--   which it ends, and the objects afterwards, with what was written before an exception.
--   Announcement/Announced.antt and the files below it follow a description to its service.
-- * Backend.antt, src/Middleware.h: the state that the parts share, which is the cache, the segments,
--   the streams, the services and their registry, with the events of a stream. Backend/Sound.antt
--   states its invariant, and Backend/Streams, Services and Adding.antt are about what may be written.
-- * Rest.antt, src/RestHandler.cpp: `rest_get` and `rest_put`. A file is served from the cache, and a
--   request for a segment without data makes the segment ask the CDN. Rest/Delivered.antt is about a
--   file on its way from a stream through the cache to the answer, Rest/Announced.antt about the
--   way from the announcement of a broadcast service to the answers, and Rest/Polled.antt and
--   Rest/Unicast.antt about the way from that of a service of a CDN, over the timer of its stream.
-- * Clients.antt, src/RpRestClient.cpp and src/on_demand/ControlSystemRestClient.cpp: the requests to
--   the modem and to the control system.
-- * Middleware.antt and Middleware/Tick.antt, src/Middleware.cpp: the constructor, the announcement
--   from a file and both timers. Middleware/Sound.antt has the runs: `Step` is one request, file or
--   timer, and `Reach` any sequence of them; Middleware/Unowned.antt is about a service that was
--   described and not registered.
-- * Process.antt, src/main.cpp: the options and the exit status.
-- Prelude and its children have the vocabulary: native numbers, lists, options, maps as sorted
-- lists of pairs, texts as lists of bytes, decimal numbers, and results.
--
-- Modelling. A shared pointer is a place in a list of objects (segments, streams, services); a
-- closure in the cache names the object whose member it reads (`Callback`). A `std::map` is a list
-- of pairs with rising keys. A function that can throw or end the process returns a `Result`: a
-- string literal and an exception of the standard library are told apart, since most handlers catch
-- only the latter; undefined behaviour, such as a null pointer that is read, counts as the end of
-- the process. Numbers of 32 and 64 bits wrap where the source lets them wrap; `int` is ℤ, and its
-- overflow is not modelled. The clock is an argument, and so is the memory of members without an
-- initializer. Loops run over lists, so no fuel is needed.
--
-- Parameters. A file of the FLUTE library (`Flute`), the answers of the HTTP library (`Http`), the
-- URI library (`UriParser`), the XML library (`Xml`), the JSON library (`Json`) with the servers
-- (`Servers`), and the floating point numbers of the C++ library (`Float`) are interfaces, and so are
-- the parts of a request (`Request`) and of an announcement (`MimePart`); `Setting` holds those of
-- the announcement with the constructor of `http_client`, `std::get_time`, gzip and the configuration,
-- and `Config` the other settings; `Prints` says that a number is printed as a word that is read back.
--
-- Not modelled: logging, the version text and the option library of src/main.cpp; the tasks of the
-- HTTP library, but for the completion callbacks of the CDN client, which run in the call or later, as
-- steps of their own; the threads, which are flags, and the locks that
-- keep the operations of a stream apart; what destructors do; exceptions of a request to the CDN
-- other than `http_exception`; and that a check of the cache reads the clock more than once, so that
-- an age may be off by a second.
-- The store keeps every stream and service that was made, so that a place leads somewhere says that
-- the object was made. Backend/Lifetime.antt says which of them the program still holds (`is_held`):
-- the services of the registry, and their streams. A closure of another object reads freed memory,
-- which counts as the end of the process, in `serve_file`, in the list of the files and in
-- `check_cache`. The steps of the streams are not restricted to those that are held.
pub mod Prelude
pub mod Hls
pub mod Flute
pub mod Cdn
pub mod Segment
pub mod Cache
pub mod Stream
pub mod Seamless
pub mod Service
pub mod Announcement
pub mod Backend
pub mod Rest
pub mod Clients
pub mod Middleware
pub mod Process

-- ===== src/Announcement/Xml.antt =====
-- What src/ServiceAnnouncement.cpp uses of the XML library, and the names of src/Constants.h. The
-- elements of the library are a parameter, with these observers.
use rt_mbms_mw.Prelude.{List, [], ◌∷◌, Option, none, some}
use rt_mbms_mw.Prelude.Key.{Bytes}
use rt_mbms_mw.Prelude.Text.{codes}

pub record Xml (E : Type 0) : Type 0 where
  -- the document
  pub parse : Bytes → E
  -- the child elements of a name, in order
  pub children : Bytes → E → List E
  pub attribute : Bytes → E → Option Bytes
  pub get_text : E → Option Bytes

-- `FirstChildElement`, or a null pointer.
abbrev pub first : {E : Type 0} → List E → Option E
first [] = none
first (e ∷ es) = some e

abbrev pub bundle_description : Bytes
bundle_description = codes "bundleDescription"

abbrev pub name_element : Bytes
name_element = codes "name"

abbrev pub lang : Bytes
lang = codes "lang"

abbrev pub user_service_description : Bytes
user_service_description = codes "userServiceDescription"

abbrev pub service_id : Bytes
service_id = codes "serviceId"

abbrev pub app_service : Bytes
app_service = codes "r12:appService"

abbrev pub delivery_method : Bytes
delivery_method = codes "deliveryMethod"

abbrev pub session_description_uri : Bytes
session_description_uri = codes "sessionDescriptionURI"

abbrev pub base_pattern : Bytes
base_pattern = codes "r12:basePattern"

abbrev pub broadcast_app_service : Bytes
broadcast_app_service = codes "r12:broadcastAppService"

abbrev pub unicast_app_service : Bytes
unicast_app_service = codes "r12:unicastAppService"

abbrev pub alternative_content : Bytes
alternative_content = codes "r12:alternativeContent"

abbrev pub identical_content : Bytes
identical_content = codes "r12:identicalContent"

abbrev pub mime_type : Bytes
mime_type = codes "mimeType"

abbrev pub app_service_description_uri : Bytes
app_service_description_uri = codes "appServiceDescriptionURI"

abbrev pub metadata_envelope : Bytes
metadata_envelope = codes "metadataEnvelope"

abbrev pub metadata_uri : Bytes
metadata_uri = codes "metadataURI"

abbrev pub item_element : Bytes
item_element = codes "item"

abbrev pub version : Bytes
version = codes "version"

abbrev pub valid_from : Bytes
valid_from = codes "validFrom"

abbrev pub valid_until : Bytes
valid_until = codes "validUntil"

-- `ContentTypeConstants`
abbrev pub mbms_envelope : Bytes
mbms_envelope = codes "application/mbms-envelope+xml"

abbrev pub mbms_user_service_description : Bytes
mbms_user_service_description = codes "application/mbms-user-service-description+xml"

abbrev pub sdp_type : Bytes
sdp_type = codes "application/sdp"

abbrev pub hls_manifest : Bytes
hls_manifest = codes "m3u8"

abbrev pub dash_manifest : Bytes
dash_manifest = codes "mpd"

-- `ServiceAnnouncementFormatConstants`
abbrev pub default_format : Bytes
default_format = codes "default"

abbrev pub fiveg_mag_bc_uc : Bytes
fiveg_mag_bc_uc = codes "5gmag_bc_uc"

abbrev pub fiveg_mag_legacy : Bytes
fiveg_mag_legacy = codes "5gmag_legacy"

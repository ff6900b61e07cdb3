-- ===== src/Base/Crates.antt =====
-- The third-party code that the program calls, as a parameter of the model. A value of type
-- `SignedPublicKey` is kept as the armored text from which it is parsed.
use reposync.Base.{Bool, Option, List, Text}

-- `Box<dyn Read>`: what it yields, and the error that it raises behind that, if any.
pub record Reader : Type 0 where
  pub content : Text
  pub failure : Option Text

-- One item of `xml::reader::Events`. Other events carry nothing that the program reads.
pub data XmlEvent : Type 0 where
  start_element : Text → List (Text × Text) → XmlEvent
  characters : Text → XmlEvent
  end_element : Text → XmlEvent
  other_event : XmlEvent
  xml_error : Text → XmlEvent

pub record Crates : Type 0 where
  -- `HEXLOWER_PERMISSIVE.encode` of the finished `Sha1` and `Sha256`
  pub sha1_hex : Text → Text
  pub sha256_hex : Text → Text
  -- `BASE32_NOPAD.encode`, `BASE64.encode`
  pub base32 : Text → Text
  pub base64 : Text → Text
  -- `SignedPublicKey::from_string`: an error's code
  pub key_error : Text → Option Text
  -- `SignedPublicKey::verify`
  pub key_verify_error : Text → Option Text
  -- `StandaloneSignature::from_armor_single` is `Ok`
  pub is_signature : Text → Bool
  -- `StandaloneSignature::verify`, of a signature, with a key, over the data
  pub verify_error : Text → Text → Text → Option Text
  -- `Regex::new(pattern).unwrap().captures(line)`: the groups, the whole match first
  pub captures : Text → Text → Option (List Text)
  -- `GzDecoder::new`
  pub gunzip : Reader → Reader
  -- the events of `xml::reader::EventReader::new`
  pub xml_events : Reader → List XmlEvent

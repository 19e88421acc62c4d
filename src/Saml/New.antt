-- ===== src/Saml/New.antt =====
-- `New` of internal/saml/saml.go and the certificate that it makes. crewjam/saml, package net/url and
-- the cryptography of the standard library are the parameter `Toolkit`.
pub mod Laws
use xdauth.Prelude.{
  ℕ, ◌+◌, ◌-◌, ◌*◌, Bool, true, false, ◌&&◌, ◌||◌, not, List, [], ◌∷◌, ◌++◌, Option, none, some,
  is_empty, if◌then◌else◌, ◌>>=◌,
}
use xdauth.Detect.{second}
use xdauth.Saml.{ServiceProvider, Provider}
use xdauth.Session.{Time}
use xdauth.Text.{Text, bytes}

-- `Config`; a nil HTTP client is the default one.
pub record Config : Type 0 where
  pub entity_id : Text
  pub base_url : Text
  pub acs_url : Text
  pub idp_metadata_url : Text
  pub idp_metadata_xml : Text
  pub identity_attribute : Text

-- The template of the certificate: for its own key, from `not_before` on, for digital signatures and
-- the encipherment of keys.
pub record Template (Serial : Type 0) : Type 0 where
  pub serial_number : Serial
  pub common_name : Text
  pub not_before : Time
  pub not_after : Time
  pub digital_signature : Bool
  pub key_encipherment : Bool
  pub basic_constraints_valid : Bool

-- What `crewjamsaml.ServiceProvider` is made of.
pub record Settings (Url Metadata Key Cert : Type 0) : Type 0 where
  pub entity_id : Text
  pub key : Key
  pub certificate : Cert
  pub metadata_url : Url
  pub acs_url : Url
  pub idp_metadata : Metadata

-- What `New` calls; a `none` is an error.
pub record Toolkit : Type 1 where
  pub Url : Type 0
  pub Metadata : Type 0
  pub Key : Type 0
  pub Serial : Type 0
  pub Der : Type 0
  pub Cert : Type 0
  -- `url.Parse`
  pub parse_url : Text → Option Url
  -- `samlsp.FetchMetadata` and `samlsp.ParseMetadata`
  pub fetch_metadata : Url → Option Metadata
  pub parse_metadata : Text → Option Metadata
  -- `rsa.GenerateKey`, `rand.Int`, `x509.CreateCertificate` and `x509.ParseCertificate`
  pub generate_key : Option Key
  pub random_serial : Option Serial
  pub create_certificate : Template Serial → Key → Option Der
  pub parse_certificate : Der → Option Cert
  -- `AddDate(10, 0, 0)`
  pub add_ten_years : Time → Time
  -- the service provider as the other methods use it
  pub service_provider : Settings Url Metadata Key Cert → ServiceProvider

module _ (T : Toolkit) where
  open T use {Url, Metadata, Key, Cert, Serial}

  abbrev pub template_of : Serial → Text → Time → Template Serial
  template_of serial base_url now = record {
    serial_number = serial;
    common_name = base_url;
    not_before = now - 3600 * second;
    not_after = T.add_ten_years now;
    digital_signature = true;
    key_encipherment = true;
    basic_constraints_valid = true;
  }

  -- `selfSignedCert`
  unfoldable pub self_signed_cert : Text → Time → Option (Key × Cert)
  self_signed_cert base_url now = do
    key ← T.generate_key
    serial ← T.random_serial
    der ← T.create_certificate (template_of serial base_url now) key
    cert ← T.parse_certificate der
    some (key, cert)

  -- The metadata of the identity provider: fetched, or parsed.
  unfoldable pub idp_metadata : Config → Option Metadata
  idp_metadata cfg =
      if not (is_empty cfg.idp_metadata_url)
      then T.parse_url cfg.idp_metadata_url >>= T.fetch_metadata
      else T.parse_metadata cfg.idp_metadata_xml

  abbrev pub entity_id_of : Config → Text
  entity_id_of cfg = if is_empty cfg.entity_id then cfg.base_url else cfg.entity_id

  abbrev pub acs_url_of : Config → Text
  acs_url_of cfg =
      if is_empty cfg.acs_url then cfg.base_url ++ bytes "/auth/saml/acs" else cfg.acs_url

  -- Both sources of metadata are set, or neither.
  abbrev pub not_one_source : Text → Text → Bool
  not_one_source url xml = if is_empty url then is_empty xml else not (is_empty xml)

  -- `New` from the fetching of the metadata on.
  unfoldable pub build : Config → Time → Option Provider
  unfolding self_signed_cert idp_metadata
  build cfg now = do
    metadata ← idp_metadata cfg
    key_cert ← self_signed_cert cfg.base_url now
    acs_url ← T.parse_url (acs_url_of cfg)
    metadata_url ← T.parse_url (cfg.base_url ++ bytes "/auth/saml/metadata")
    some (record {
      sp = T.service_provider (record {
        entity_id = entity_id_of cfg;
        key = key_cert.0;
        certificate = key_cert.1;
        metadata_url = metadata_url;
        acs_url = acs_url;
        idp_metadata = metadata;
      });
      identity_attribute = cfg.identity_attribute;
    })

  -- `New`; `none` is an error.
  unfoldable pub new : Config → Time → Option Provider
  unfolding build
  new cfg now =
      if is_empty cfg.base_url
      then none
      else if not_one_source cfg.idp_metadata_url cfg.idp_metadata_xml
      then none
      else build cfg now

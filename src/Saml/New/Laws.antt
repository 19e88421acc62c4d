-- ===== src/Saml/New/Laws.antt =====
-- When `New` of saml.go succeeds, and what it makes.
use xdauth.Detect.{second}
use xdauth.Prelude.{
  ◌-◌, ◌*◌, ◌≡◌, ◌↔◌, inl, inr, true, false, not, ◌++◌, Option, some, arith, is_empty, Option-cases,
  Bool-cases, ap, sym, ◌∙◌, if◌then◌else◌,
}
use xdauth.Saml.{Provider}
use xdauth.Saml.New.{
  Config, Toolkit, template_of, self_signed_cert, idp_metadata, acs_url_of, build, new,
}
use xdauth.Session.{Time}
use xdauth.Text.{Text, bytes}

pair_inv :
    {A B : Type 0} {a c : A} {b d : B}
    → ◌≡◌ {A = Option (A × B)} (some (a, b)) (some (c, d))
    → (a ≡ c) × (b ≡ d)
pair_inv e = (cc, cc)

module _ (T : Toolkit) where
  -- The provider of this configuration, with what it needs of the outside.
  -- The metadata of the provider at the configured URL, or in the configured XML.
  pub data FromSource (cfg : Config) (metadata : T.Metadata) : Type 0 where
    fetched :
        (u : T.Url)
        → is_empty cfg.idp_metadata_url ≡ false
        → T.parse_url cfg.idp_metadata_url ≡ some u
        → T.fetch_metadata u ≡ some metadata
        → FromSource cfg metadata
    parsed :
        is_empty cfg.idp_metadata_url ≡ true
        → T.parse_metadata cfg.idp_metadata_xml ≡ some metadata
        → FromSource cfg metadata

  -- A certificate for its own key, in the name of the base URL, from an hour ago for ten years.
  pub record Signed (base_url : Text) (now : Time) (key : T.Key) (cert : T.Cert) : Type 0 where
    pub serial : T.Serial
    pub der : T.Der
    pub has_key : T.generate_key ≡ some key
    pub has_serial : T.random_serial ≡ some serial
    pub created :
        T.create_certificate
          (record {
            serial_number = serial;
            common_name = base_url;
            not_before = now - 3600 * second;
            not_after = T.add_ten_years now;
            digital_signature = true;
            key_encipherment = true;
            basic_constraints_valid = true;
          })
          key
        ≡ some der
    pub is_cert : T.parse_certificate der ≡ some cert

  -- The provider of this configuration, with what it needs of the outside.
  pub record Ready (cfg : Config) (now : Time) (p : Provider) : Type 0 where
    pub metadata : T.Metadata
    pub key : T.Key
    pub cert : T.Cert
    pub acs : T.Url
    pub own_metadata : T.Url
    pub from_source : FromSource cfg metadata
    pub signed : Signed cfg.base_url now key cert
    pub acs_parses :
        T.parse_url
          (if is_empty cfg.acs_url then cfg.base_url ++ bytes "/auth/saml/acs" else cfg.acs_url)
        ≡ some acs
    pub base_parses : T.parse_url (cfg.base_url ++ bytes "/auth/saml/metadata") ≡ some own_metadata
    pub content : p ≡ record {
      sp = T.service_provider (record {
        entity_id = if is_empty cfg.entity_id then cfg.base_url else cfg.entity_id;
        key = key;
        certificate = cert;
        metadata_url = own_metadata;
        acs_url = acs;
        idp_metadata = metadata;
      });
      identity_attribute = cfg.identity_attribute;
    }

  idp_metadata-FromSource :
      (cfg : Config) (md : T.Metadata) → idp_metadata T cfg ≡ some md → FromSource cfg md
  unfolding idp_metadata
  idp_metadata-FromSource cfg md h = elim (Bool-cases (is_empty cfg.idp_metadata_url)) [
    | inl e ↦ parsed e (rw e at h)
    | inr e ↦ elim (Option-cases (T.parse_url cfg.idp_metadata_url)) [
      | inl u ↦ absurd (ground (arith, h))
      | inr (u, k) ↦ fetched u e k (rw (e, k) at h)
    ]
  ]

  FromSource-idp_metadata :
      (cfg : Config) (md : T.Metadata) → FromSource cfg md → idp_metadata T cfg ≡ some md
  unfolding idp_metadata
  FromSource-idp_metadata cfg md (fetched u e k f) = rw (e, k) f
  FromSource-idp_metadata cfg md (parsed e f) = rw e f

  self_signed_cert-Signed :
      (base_url : Text) (now : Time) (key : T.Key) (cert : T.Cert)
      → self_signed_cert T base_url now ≡ some (key, cert)
      → Signed base_url now key cert
  unfolding self_signed_cert
  self_signed_cert-Signed base_url now key cert h = elim (Option-cases T.generate_key) [
    | inl a ↦ absurd (ground arith)
    | inr (k, a) ↦ elim (Option-cases T.random_serial) [
      | inl b ↦ absurd (ground arith)
      | inr (serial, b) ↦
          elim (Option-cases (T.create_certificate (template_of T serial base_url now) k)) [
            | inl c ↦ absurd (ground arith)
            | inr (der, c) ↦ elim (Option-cases (T.parse_certificate der)) [
              | inl d ↦ absurd (ground arith)
              | inr (crt, d) ↦
                  let same : ◌≡◌ {A = Option (T.Key × T.Cert)} (some (k, crt)) (some (key, cert)) =
                    ground arith in
                  let (same_key, same_cert) = pair_inv same in
                  record {
                    serial = serial;
                    der = der;
                    has_key = a ∙ ap some same_key;
                    has_serial = b;
                    created =
                        ap (T.create_certificate (template_of T serial base_url now)) (sym same_key)
                        ∙ c;
                    is_cert = d ∙ ap some same_cert;
                  }
            ]
          ]
    ]
  ]

  Signed-self_signed_cert :
      (base_url : Text) (now : Time) (key : T.Key) (cert : T.Cert)
      → Signed base_url now key cert
      → self_signed_cert T base_url now ≡ some (key, cert)
  unfolding self_signed_cert
  Signed-self_signed_cert base_url now key cert s =
      ground (arith, s.has_key, s.has_serial, s.created, s.is_cert)

  build-Ready :
      (cfg : Config) (now : Time) (p : Provider) → build T cfg now ≡ some p → Ready cfg now p
  unfolding build
  build-Ready cfg now p h = elim (Option-cases (idp_metadata T cfg)) [
    | inl a ↦ absurd (ground arith)
    | inr (md, a) ↦ elim (Option-cases (self_signed_cert T cfg.base_url now)) [
      | inl b ↦ absurd (ground arith)
      | inr ((key, cert), b) ↦ elim (Option-cases (T.parse_url (acs_url_of T cfg))) [
        | inl c ↦ absurd (ground arith)
        | inr (acs, c) ↦
            elim (Option-cases (T.parse_url (cfg.base_url ++ bytes "/auth/saml/metadata"))) [
              | inl d ↦ absurd (ground arith)
              | inr (own, d) ↦ record {
                metadata = md;
                key = key;
                cert = cert;
                acs = acs;
                own_metadata = own;
                from_source = idp_metadata-FromSource cfg md a;
                signed = self_signed_cert-Signed cfg.base_url now key cert b;
                acs_parses = c;
                base_parses = d;
                content = ground arith;
              }
            ]
      ]
    ]
  ]

  Ready-build :
      (cfg : Config) (now : Time) (p : Provider) → Ready cfg now p → build T cfg now ≡ some p
  unfolding build
  Ready-build cfg now p r = ground (
    arith,
    FromSource-idp_metadata cfg r.metadata r.from_source,
    Signed-self_signed_cert cfg.base_url now r.key r.cert r.signed,
    r.acs_parses,
    r.base_parses,
    r.content,
  )

  -- `New` succeeds exactly when the base URL is set, of the two sources of metadata one and only one
  -- is set, this one yields metadata, the certificate can be made and the two URLs parse; then the
  -- provider has that metadata, the base URL as its entity ID and /auth/saml/acs below it as its ACS
  -- URL unless the configuration sets others, and the configured identity attribute.
  pub new_iff :
      (cfg : Config) (now : Time) (p : Provider)
      → (new T cfg now ≡ some p) ↔ (
          (is_empty cfg.base_url ≡ false)
          × (is_empty cfg.idp_metadata_url ≡ not (is_empty cfg.idp_metadata_xml))
          × Ready cfg now p)
  unfolding new
  new_iff cfg now p = (forward, λ (a, b, r). ground (arith, Ready-build cfg now p r))
    where
      forward :
          new T cfg now ≡ some p
          → (is_empty cfg.base_url ≡ false)
            × (is_empty cfg.idp_metadata_url ≡ not (is_empty cfg.idp_metadata_xml))
            × Ready cfg now p
      forward h = (ground arith, ground arith, build-Ready cfg now p (ground arith))

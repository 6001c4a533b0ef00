-- ===== src/Config.antt =====
-- internal/config/tls.go, and the certificates, keys and pools of `crypto/tls` and `crypto/x509` that
-- the whole program uses. What those packages compute is a parameter.
use m_tlsling.Base.{
  ℕ, String, Bool, false, Option, none, some, List, [], ◌∷◌, Result, ok, err, ◌>>=◌, wrap,
  if◌then◌else◌,
}

-- A key by its Go type; any other type is named by its `%T`.
pub data Key (R E : Type 0) : Type 0 where
  rsa : R → Key R E
  ecdsa : E → Key R E
  unsupported : String → Key R E

-- The standard library's cryptography, and reading a file.
pub record Crypto : Type 1 where
  pub RsaPrivate : Type 0
  pub EcPrivate : Type 0
  pub RsaPublic : Type 0
  pub EcPublic : Type 0
  pub X509 : Type 0
  pub CertPool : Type 0
  pub parse_certificate : List ℕ → Result X509
  pub raw : X509 → List ℕ
  pub public_key : X509 → Key RsaPublic EcPublic
  pub verify_chain : X509 → CertPool → Option String
  pub sign_pss : RsaPrivate → List ℕ → Result (List ℕ)
  pub verify_pss : RsaPublic → List ℕ → List ℕ → Option String
  pub ecdsa_sign : EcPrivate → List ℕ → Result (ℕ × ℕ)
  pub ecdsa_verify : EcPublic → List ℕ → ℕ → ℕ → Bool
  pub sha256 : List ℕ → List ℕ
  pub pem_encode : List ℕ → String
  pub pem_decode : String → Option (List ℕ)
  pub base64_encode : List ℕ → String
  pub base64_decode : String → Result (List ℕ)
  pub read_file : String → Result (List ℕ)
  pub append_certs : List ℕ → Option CertPool

module _ (C : Crypto) where
  -- `tls.Certificate`
  pub record Certificate : Type 0 where
    pub certificate : List (List ℕ)
    pub private_key : Option (Key C.RsaPrivate C.EcPrivate)

  pub data ClientAuth : Type 0 where
    require_any require_and_verify no_client_cert : ClientAuth

  -- The fields of `tls.Config` that the program sets. `version` is the lowest TLS version.
  pub record TlsConfig : Type 0 where
    pub certificates : List Certificate
    pub root_cas : Option C.CertPool
    pub client_cas : Option C.CertPool
    pub server_name : String
    pub version : ℕ
    pub insecure_skip_verify : Bool
    pub client_auth : ClientAuth

  -- `tls.VersionTLS13`
  abbrev pub version_tls13 : ℕ
  version_tls13 = 0x0304

  -- `ClientTLSConfig`
  unfoldable pub client_tls_config : Certificate → Option C.CertPool → String → Bool → TlsConfig
  client_tls_config cert roots server_name insecure = record {
    certificates = cert ∷ [];
    root_cas = roots;
    client_cas = none;
    server_name = server_name;
    version = version_tls13;
    insecure_skip_verify = insecure;
    client_auth = no_client_cert;
  }

  -- `ServerTLSConfig`
  unfoldable pub server_tls_config : Certificate → Option C.CertPool → Bool → TlsConfig
  server_tls_config cert roots insecure =
      let cfg : TlsConfig = record {
        certificates = cert ∷ [];
        root_cas = none;
        client_cas = none;
        server_name = "";
        version = version_tls13;
        insecure_skip_verify = false;
        client_auth = no_client_cert;
      } in
      if insecure
      then record cfg { client_auth = require_any }
      else record cfg { client_cas = roots; client_auth = require_and_verify }

  -- `LoadCertPool`
  unfoldable pub load_cert_pool : String → Result C.CertPool
  load_cert_pool path = do
    pem ← wrap "read ca" (C.read_file path)
    elim (C.append_certs pem) [ none ↦ err "append ca: no certs found" | some pool ↦ ok pool ]

  -- `LoadCertificate`; the key pair is what `tls.LoadX509KeyPair` gives for the two paths.
  unfoldable pub load_certificate :
      (String → String → Result Certificate) → String → String → Result Certificate
  load_certificate load_x509_key_pair cert_path key_path =
      wrap "load keypair" (load_x509_key_pair cert_path key_path)

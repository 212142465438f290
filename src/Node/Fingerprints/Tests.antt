-- ===== src/Node/Fingerprints/Tests.antt =====
-- Certificate reports of a node with its certificate in a file.
use v2node_pro.Prelude.{true, ◌≡◌, refl, inl, inr, Option, none, some, [], ◌∷◌, if◌then◌else◌}
use v2node_pro.Prelude.Int.{pos}
use v2node_pro.Prelude.Eq.{◌==◌, string_eq}
use v2node_pro.Panel.NodeInfo.{NodeInfo, CertInfo}
use v2node_pro.Panel.Client.{build_node}
use v2node_pro.Panel.Client.Tests.{client, config, base_config}
use v2node_pro.Node.Monitor.{ReloadCh}
use v2node_pro.Node.Fingerprints.{
  Fingerprint, X509, report_certificate_task, report_certificate, trim_right_slashes, plain_report,
}

abbrev reporting : NodeInfo
reporting =
    build_node client (config (some (record base_config { certificate_report = true }))) (pos 1)
      (pos 60) (pos 60)

abbrev cert : CertInfo
cert = record {
  cert_mode = "dns";
  cert_file = "/etc/v2node/vless7.cer";
  key_file = "/k";
  email = "node@v2board.com";
  cert_domain = "a.example";
  dns_env = ("A", "2") ∷ ("C", "x=y") ∷ [];
  provider = "p";
  reject_unknown_sni = true;
}

abbrev pub x509 : X509
x509 = record {
  load_key_pair = λ c k. if k == "/k" then inr "DER" else inl "no such file";
  parse_certificate = λ raw.
      inr (record { raw_subject_public_key_info = "SPKI"; not_after = pos 9; issuer = "CA" });
  sha256_hex = λ s. s;
  sha256_base64 = λ s. s;
}

abbrev loaded : Fingerprint
loaded = record { sha256 = "OLD"; public_key_sha256 = "SPKI"; not_after = pos 9; issuer = "CA" }

abbrev channel : Option ReloadCh
channel = some (record { pending = 0; capacity = 1 })

files_changed :
    report_certificate_task x509 reporting (some loaded) channel
    ≡ (some (record { pending = 1; capacity = 1 }), none)
unfolding report_certificate_task build_node
files_changed = refl

report_answers :
    (report_certificate
        (record {
          encodes = λ r. true;
          parses = λ u. true;
          makes_request = λ u. true;
          response = λ r. some (pos 200, some true);
        })
        "http://p//"
        (plain_report "")
      ≡ none)
    × (report_certificate
          (record {
            encodes = λ r. true;
            parses = λ u. true;
            makes_request = λ u. true;
            response = λ r. some (pos 403, none);
          })
          "http://p//"
          (plain_report "")
        ≡ some "certificate report HTTP 403")
    × (trim_right_slashes "http://p//" ≡ "http://p")
unfolding report_certificate plain_report
report_answers = (refl, refl, refl)

-- ===== src/Core/Manifest/Examples.antt =====
-- The theorems about manifests at a small one.
use ulpf_prism_sih.Prelude.{true, false, some, [], ◌∷◌, ◌≡◌, refl}
use ulpf_prism_sih.Dict.{Dict}
use ulpf_prism_sih.Int.{pos}
use ulpf_prism_sih.Json.{Json, null, boolean, str, obj, arr, nil, cons, end, field, fields}
use ulpf_prism_sih.Contracts.ParsedEvent.{ParsedEvent}
use ulpf_prism_sih.Core.Engine.Identity.{RefersTo}
use ulpf_prism_sih.Core.Parsers.{Result, returned, unreadable, broken}
use ulpf_prism_sih.Core.Parsers.Sample.{libraries}
use ulpf_prism_sih.Core.Manifest.{ManifestPack, FieldRule, validate_manifest}
use ulpf_prism_sih.Core.Manifest.Pack.{load, parse, status_of}
use ulpf_prism_sih.Core.Manifest.Pack.Valid.{IsFilled, load-IsFilled}
use ulpf_prism_sih.Core.Manifest.Pack.Explained.{AllCovered, StatusFits, parse-AllCovered}
use ulpf_prism_sih.Samples
use ulpf_prism_sih.Samples.{envelope}

abbrev manifest : Json
manifest = obj (
    field "pack"
      (obj (
        field "vendor" (str "Acme")
          (field "product" (str "Wall") (field "pack_version" (str "1.0.0") end))))
      (field "detection" (obj end) (
        field "format" (obj (field "type" (str "json") end)) (
          field "fields"
            (arr (
              cons (obj (field "name" (str "src_ip") (field "source" (str "src") end))) (
                cons
                  (obj (
                    field "name" (str "user")
                      (field "source" (str "a.b") (field "required" (boolean true) end))))
                  nil)))
            end))))

abbrev sections : Json → Dict Json
sections (obj fs) = fields fs
sections v = []

accepted : validate_manifest manifest ≡ some (sections manifest)
unfolding validate_manifest ulpf_prism_sih.Python.get ulpf_prism_sih.Dict.lookup
    ulpf_prism_sih.Python.Words.strip
accepted = refl

load-IsFilled_example : (pack : ManifestPack) × (load "acme" manifest ≡ some pack) × IsFilled pack
load-IsFilled_example = load-IsFilled "acme" manifest accepted

abbrev pack : ManifestPack
pack = record {
  pack_id = str "acme";
  vendor = "Acme";
  product = "Wall";
  pack_version = "1.0.0";
  priority = pos 0;
  detection_rules = [];
  format_type = "json";
  format_options = [];
  field_rules =
      record { name = "src_ip"; source = "src"; default = null; required = boolean false }
      ∷ record { name = "user"; source = "a.b"; default = null; required = boolean true }
      ∷ [];
}

abbrev result : Result ParsedEvent
result = parse libraries 5 pack envelope

abbrev event_or : ParsedEvent → Result ParsedEvent → ParsedEvent
event_or d (returned event) = event
event_or d r = d

came : result ≡ returned (event_or Samples.event result)
unfolding parse ulpf_prism_sih.Contracts.RawEvent.raw_bytes ulpf_prism_sih.Contracts.Base64.decode
    ulpf_prism_sih.Contracts.RawEvent.envelope_of ulpf_prism_sih.Contracts.Base64.encode
    ulpf_prism_sih.Core.Parsers.Selection.parse ulpf_prism_sih.Core.Parsers.Selection.get_parser
    ulpf_prism_sih.Dict.lookup ulpf_prism_sih.Core.Parsers.JsonFormat.parse
    ulpf_prism_sih.Contracts.ParsedEvent.validate ulpf_prism_sih.Core.Manifest.Pack.event_of
    ulpf_prism_sih.Contracts.ParsedEvent.verify_event_identity
came = refl

parse-AllCovered_example :
    RefersTo envelope (event_or Samples.event result)
    × StatusFits (event_or Samples.event result).issues (event_or Samples.event result).status
    × AllCovered
        (event_or Samples.event result).issues
        (event_or Samples.event result).extracted_fields
        pack.field_rules
parse-AllCovered_example = parse-AllCovered libraries 5 pack envelope came

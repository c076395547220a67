-- ===== src/Tests/Parse.antt =====
-- A binding of a small schema, and the gate on it.
use Prim.Native.String.{String}
use ieee_2030_5_core_go.Prelude.{
  true, false, List, [], ◌∷◌, Option, none, some, Text, ◌≡◌, ◌↔◌, refl,
}
use ieee_2030_5_core_go.Golang.Xml.{Token, XmlName, start_element, end_element, char_data}
use ieee_2030_5_core_go.Gate.Xsd.{XsdComplexType, XsdSchemaDoc, Particles, sequence, no_more}
use ieee_2030_5_core_go.Gate.Table.{lookup, mem_name, distinct, put}
use ieee_2030_5_core_go.Gate.Schema.{
  base_chain, chain_loop, collect, view_of, effective_elements, effective_attributes,
}
use ieee_2030_5_core_go.Gate.Convert.{
  convert_simple_type, convert_complex_type, strip_ns, reject_unsupported_particles,
  convert_attributes, flatten_sequence, flatten, flatten_all, convert_elements, convert_element,
}
use ieee_2030_5_core_go.Gate.Model.{Schema}
use ieee_2030_5_core_go.Gate.Document.{Node, document, end_of_input, parse_document}
use ieee_2030_5_core_go.Gate.Validate.Tree.{validate, checked}
use ieee_2030_5_core_go.Gate.Validate.Tree.Conforms.{WellNamed}
use ieee_2030_5_core_go.Gate.Validate.Tree.Accepts.{Accepts}
use ieee_2030_5_core_go.Gate.Parse.{
  loads, parse_schema, trim_bom, simple_loop, complex_loop, element_loop, resolve_all,
}
use ieee_2030_5_core_go.Gate.Parse.Laws.{SchemaOk, parse_schema-SchemaOk}
use ieee_2030_5_core_go.Gate.Parse.Flow.{after_calls, parse_schema-validate}

abbrev plain : Particles
plain = record { choice = false; all = false; group_ref = false; attr_groups = false }

abbrev xsd_device : XsdComplexType
xsd_device = record {
  name = "Device";
  abstract = "";
  sequence = some (
      sequence
        (record {
          choice = false;
          all = false;
          group_ref = false;
          any = false;
          elements =
              record {
                name = "id";
                ref = "";
                type = "xs:string";
                min_occurs = "";
                max_occurs = "";
                inline_complex = false;
                inline_simple = false;
              }
              ∷ [];
        })
        no_more);
  particles = plain;
  attributes = [];
  complex_content = none;
  simple_content = none;
}

abbrev xsd_doc : XsdSchemaDoc
xsd_doc = record {
  target_namespace = "urn:s";
  version = "1";
  complex_types = xsd_device ∷ [];
  simple_types = [];
  elements = [];
  imports = false;
  includes = false;
  groups = false;
  attribute_groups = false;
}

-- A reader that knows this one file, without its byte order mark.
abbrev read_doc : Text → Option XsdSchemaDoc
read_doc [] = none
read_doc (b ∷ rest) = some xsd_doc

abbrev parsed_schema : Schema
parsed_schema = record {
  target_namespace = "urn:s";
  version = "1";
  complex_types =
      (
        "Device",
        record {
          name = "Device";
          base = "";
          simple_content = false;
          own_elements =
              record {
                name = "id";
                type = "string";
                required = true;
                repeatable = false;
                owner = "Device";
              }
              ∷ [];
          own_attributes = [];
        },
      )
      ∷ [];
  simple_types = [];
  elements = [];
  eff_elements =
      (
        "Device",
        record {
          name = "id";
          type = "string";
          required = true;
          repeatable = false;
          owner = "Device";
        }
            ∷ [],
      )
      ∷ [];
  eff_attrs = ("Device", []) ∷ [];
}

parsed_schema-parsed : parse_schema read_doc (0xEF ∷ 0xBB ∷ 0xBF ∷ b'<' ∷ []) ≡ loads parsed_schema
unfolding parse_schema trim_bom simple_loop complex_loop element_loop resolve_all
    convert_simple_type convert_complex_type strip_ns reject_unsupported_particles
    convert_attributes flatten_sequence flatten flatten_all convert_elements convert_element lookup
    mem_name put effective_elements effective_attributes view_of base_chain chain_loop collect
parsed_schema-parsed = refl

parse_schema-SchemaOk_example : SchemaOk parsed_schema
parse_schema-SchemaOk_example =
    parse_schema-SchemaOk read_doc (0xEF ∷ 0xBB ∷ 0xBF ∷ b'<' ∷ []) parsed_schema-parsed

parsed_schema-WellNamed : WellNamed parsed_schema
unfolding view_of base_chain chain_loop collect lookup mem_name distinct
parsed_schema-WellNamed = ((refl, refl), tt)

abbrev of_schema : String → XmlName
of_schema local = record { space = "urn:s"; local = local }

-- A device with its id.
abbrev device_doc : List Token
device_doc =
    start_element (of_schema "Device") []
    ∷ start_element (of_schema "id") []
    ∷ char_data (b'7' ∷ [])
    ∷ end_element (of_schema "id")
    ∷ end_element (of_schema "Device")
    ∷ []

parse_schema-validate_example :
    ((validate
        (after_calls parsed_schema (("Device", [], end_of_input) ∷ []))
        "Device"
        device_doc
        end_of_input).1
      ≡ checked [])
    ↔ ((root : Node) × (parse_document device_doc end_of_input ≡ document root)
        × Accepts parsed_schema "Device" root)
parse_schema-validate_example =
    parse_schema-validate read_doc (0xEF ∷ 0xBB ∷ 0xBF ∷ b'<' ∷ [])
      (("Device", [], end_of_input) ∷ []) "Device" device_doc end_of_input parsed_schema-parsed
      parsed_schema-WellNamed

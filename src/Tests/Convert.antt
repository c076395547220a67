-- ===== src/Tests/Convert.antt =====
-- A concrete complex type: a sequence with a nested one.
use ieee_2030_5_core_go.Prelude.{[], ◌∷◌, none, some, false, true}
use ieee_2030_5_core_go.Gate.Schema.{ComplexType}
use ieee_2030_5_core_go.Gate.Xsd.{
  XsdElementDecl, XsdSequence, XsdComplexType, sequence, no_more, more,
}

abbrev value_decl : XsdElementDecl
value_decl = record {
  name = "value";
  ref = "";
  type = "sep:Int16";
  min_occurs = "";
  max_occurs = "";
  inline_complex = false;
  inline_simple = false;
}

abbrev note_decl : XsdElementDecl
note_decl = record value_decl { name = "note"; min_occurs = "0"; max_occurs = "unbounded" }

abbrev some_sequence : XsdSequence
some_sequence =
    sequence
      (record {
        choice = false;
        all = false;
        group_ref = false;
        any = false;
        elements = value_decl ∷ [];
      })
      (more
        (sequence
          (record {
            choice = false;
            all = false;
            group_ref = false;
            any = false;
            elements = note_decl ∷ [];
          })
          no_more)
        no_more)

abbrev some_type : XsdComplexType
some_type = record {
  name = "Reading";
  abstract = "";
  sequence = some some_sequence;
  particles = record { choice = false; all = false; group_ref = false; attr_groups = false };
  attributes = [];
  complex_content = none;
  simple_content = none;
}

abbrev reading : ComplexType
reading = record {
  name = "Reading";
  base = "";
  simple_content = false;
  own_elements =
      record {
        name = "value";
        type = "Int16";
        required = true;
        repeatable = false;
        owner = "Reading";
      }
      ∷ record {
        name = "note";
        type = "Int16";
        required = false;
        repeatable = true;
        owner = "Reading";
      }
      ∷ [];
  own_attributes = [];
}

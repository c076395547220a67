-- ===== src/Tests/Gate.antt =====
-- Concrete inputs for the schema gate.
use Prim.Native.String.{String}
use ieee_2030_5_core_go.Prelude.{
  some, Text, List, [], ◌∷◌, ◌++◌, false, true, ◌≡◌, ◌↔◌, refl, arith,
}
use ieee_2030_5_core_go.Prelude.Int.{pos, negsuc}
use ieee_2030_5_core_go.Sep2.HexBinary.{hex_binary16, marshal_xml}
use ieee_2030_5_core_go.Sep2.Result as Res
use ieee_2030_5_core_go.Sep2.Bounded as Bounded
use ieee_2030_5_core_go.Sep2.Bounded.{signed_per_cent}
use ieee_2030_5_core_go.Gate.Lexical.Decimal.{builtin_of, check_builtin-marshal_xml}
use ieee_2030_5_core_go.Gate.Table.{lookup, mem_name}
use ieee_2030_5_core_go.Gate.Lexical.{fine, check_builtin, check_hex_binary}
use ieee_2030_5_core_go.Gate.Lexical.HexText.{check_hex_binary-marshal_xml}
use ieee_2030_5_core_go.Gate.Schema.{
  Element, ComplexType, ok, base_chain, chain_loop, collect, view_of,
}
use ieee_2030_5_core_go.Gate.Schema.Chain.{Derives}
use ieee_2030_5_core_go.Gate.Schema.Views.{base_chain_iff, view_of-extends}

check_hex_binary-marshal_xml_example :
    check_hex_binary (marshal_xml hex_binary16 412) (pos 2) ≡ fine
check_hex_binary-marshal_xml_example = check_hex_binary-marshal_xml hex_binary16 412 (omega arith)

abbrev resource : ComplexType
resource = record {
  name = "Resource";
  base = "";
  simple_content = false;
  own_elements =
      record {
        name = "href";
        type = "anyURI";
        required = false;
        repeatable = false;
        owner = "Resource";
      }
      ∷ [];
  own_attributes = [];
}

abbrev list_type : ComplexType
list_type = record {
  name = "List";
  base = "Resource";
  simple_content = false;
  own_elements =
      record { name = "all"; type = "UInt32"; required = true; repeatable = false; owner = "List" }
      ∷ [];
  own_attributes = [];
}

abbrev types : List (String × ComplexType)
types = ("List", list_type) ∷ ("Resource", resource) ∷ []

base_chain_iff_example :
    (base_chain types "List" ≡ ok (list_type ∷ resource ∷ []))
    ↔ Derives types "List" (list_type ∷ resource ∷ [])
base_chain_iff_example =
    base_chain_iff types "List" list_type (list_type ∷ resource ∷ []) (unfold lookup in refl)

view_of-extends_example :
    (inherited : List Element) × (view_of (λ ct. ct.own_elements) types "Resource" ≡ ok inherited)
    × (resource.own_elements ++ list_type.own_elements ≡ inherited ++ list_type.own_elements)
view_of-extends_example =
    view_of-extends (λ ct. ct.own_elements) types "List" list_type resource
      (resource.own_elements ++ list_type.own_elements) refl (unfold lookup in refl)
      (unfold lookup in refl) (unfold view_of base_chain chain_loop collect lookup mem_name in refl)

check_builtin-marshal_xml_example :
    (text : Text) × (Bounded.marshal_xml signed_per_cent (negsuc 4) ≡ Res.ok text)
    × (check_builtin (some (builtin_of signed_per_cent, negsuc 0)) text ≡ fine)
check_builtin-marshal_xml_example =
    check_builtin-marshal_xml signed_per_cent (negsuc 4) (negsuc 0) (omega arith, omega arith)

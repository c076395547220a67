-- ===== src/Tests/Validate.antt =====
-- A document for internal/xsdgate/validate.go.
use Prim.Native.String.{String}
use ieee_2030_5_core_go.Prelude.{List, [], ◌∷◌, ◌++◌, ◌≡◌}
use ieee_2030_5_core_go.Golang.Xml.{
  Token, start_element, end_element, char_data, other_token, XmlName,
}
use ieee_2030_5_core_go.Gate.Document.{
  Nodes, node, no_nodes, child, end_of_input, document, parse_document,
}
use ieee_2030_5_core_go.Gate.Document.Written.{
  Written, element, piece, Outside, parse_document-Written,
}

abbrev named : String → XmlName
named local = record { space = "urn:s"; local = local }

abbrev inner : List Token
inner =
    char_data (b'x' ∷ [])
    ∷ (start_element (named "b") [] ∷ (char_data (b'5' ∷ []) ∷ [])
        ++ end_element (named "b") ∷ (other_token ∷ char_data (b'y' ∷ []) ∷ []))

abbrev inner_nodes : Nodes
inner_nodes = child (node (named "b") [] no_nodes (b'5' ∷ [])) no_nodes

-- <!-- --><a>x<b>5</b><!-- -->y</a>
parse_document-Written_example :
    parse_document
      ((other_token ∷ []) ++ (start_element (named "a") [] ∷ inner ++ end_element (named "a") ∷ []))
      end_of_input
    ≡ document (node (named "a") [] inner_nodes (b'x' ∷ b'y' ∷ []))
parse_document-Written_example =
    parse_document-Written (other_token ∷ []) inner [] (named "a") (named "a") [] inner_nodes
      (b'x' ∷ b'y' ∷ []) (Outside.comment Outside.nothing)
      (piece (b'x' ∷ []) (
        element (named "b") (named "b") [] (piece (b'5' ∷ []) Written.nothing)
          (Written.comment (piece (b'y' ∷ []) Written.nothing))))
      Outside.nothing

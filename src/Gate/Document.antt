-- ===== src/Gate/Document.antt =====
-- internal/xsdgate/validate.go: the tree of a document, and `parseDocument`.
--
-- The source's stack holds pointers into the tree that grows below `root`. Here the stack holds the
-- open elements themselves, innermost first, each with its closed children; an element is attached
-- to its parent when it closes, and what is open at the end of input is closed then.
pub mod Written
use ieee_2030_5_core_go.Prelude.{List, [], ◌∷◌, ◌++◌, Option, none, some, Text}
use ieee_2030_5_core_go.Golang.Xml.{
  Token, start_element, end_element, char_data, other_token, XmlName, XmlAttr,
}

mutual
  pub data Node : Type 0 where
    node : XmlName → List XmlAttr → Nodes → Text → Node

  pub data Nodes : Type 0 where
    no_nodes : Nodes
    child : Node → Nodes → Nodes

abbrev pub name_of : Node → XmlName
name_of (node name attrs children text) = name

unfoldable pub add_node : Nodes → Node → Nodes
add_node no_nodes n = child n no_nodes
add_node (child m rest) n = child m (add_node rest n)

unfoldable pub attach : Node → Node → Node
attach n (node name attrs children text) = node name attrs (add_node children n) text

unfoldable pub add_text : Text → Node → Node
add_text s (node name attrs children text) = node name attrs children (text ++ s)

-- What ends the calls of `Token`.
pub data Ending : Type 0 where
  end_of_input syntax_error : Ending

pub data Parse : Type 0 where
  bad_syntax second_root unbalanced_end no_root : Parse
  document : Node → Parse

-- The root, with the elements closed that are open.
unfoldable pub close_all : List Node → Option Node → Parse
close_all [] none = no_root
close_all [] (some root) = document root
close_all (n ∷ []) root = document n
close_all (n ∷ parent ∷ stack) root = close_all (attach n parent ∷ stack) root

on_start : Node → List Node → Option Node → (List Node → Parse) → Parse
on_start n [] none next = next (n ∷ [])
on_start n [] (some root) next = second_root
on_start n (parent ∷ stack) root next = next (n ∷ parent ∷ stack)

on_end : List Node → Option Node → (List Node → Option Node → Parse) → Parse
on_end [] root next = unbalanced_end
on_end (n ∷ []) root next = next [] (some n)
on_end (n ∷ parent ∷ stack) root next = next (attach n parent ∷ stack) root

on_text : Text → List Node → List Node
on_text s [] = []
on_text s (n ∷ stack) = add_text s n ∷ stack

on_ending : Ending → List Node → Option Node → Parse
on_ending end_of_input stack root = close_all stack root
on_ending syntax_error stack root = bad_syntax

unfoldable pub document_loop : List Token → Ending → List Node → Option Node → Parse
unfolding on_start on_end on_text on_ending
document_loop [] ending stack root = on_ending ending stack root
document_loop (start_element name attrs ∷ tokens) ending stack root =
    on_start (node name attrs no_nodes []) stack root
      λ stack'. document_loop tokens ending stack' root
document_loop (end_element name ∷ tokens) ending stack root =
    on_end stack root λ stack' root'. document_loop tokens ending stack' root'
document_loop (char_data s ∷ tokens) ending stack root =
    document_loop tokens ending (on_text s stack) root
document_loop (other_token ∷ tokens) ending stack root = document_loop tokens ending stack root

unfoldable pub parse_document : List Token → Ending → Parse
parse_document tokens ending = document_loop tokens ending [] none

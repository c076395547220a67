-- ===== src/Gate/Document/Written.antt =====
-- The tokens that write a tree, and theorems on `parseDocument` of internal/xsdgate/validate.go.
use ieee_2030_5_core_go.Prelude.{
  List, [], ◌∷◌, ◌++◌, Option, none, some, Text, list_append_assoc, list_append_nil, ◌≡◌, refl, ap,
  sym,
}
use ieee_2030_5_core_go.Golang.Xml.{
  Token, start_element, end_element, char_data, other_token, XmlName, XmlAttr,
}
use ieee_2030_5_core_go.Gate.Document.{
  Node, Nodes, node, no_nodes, child, add_node, attach, add_text, Ending, end_of_input, document,
  close_all, on_start, on_end, on_text, on_ending, document_loop, parse_document,
}

-- The tokens between the tags of an element: its children and its text, in pieces, with comments
-- between them.
pub data Written : List Token → Nodes → Text → Type 0 where
  nothing : Written [] no_nodes []
  comment :
      {tokens : List Token} {nodes : Nodes} {text : Text}
      → Written tokens nodes text
      → Written (other_token ∷ tokens) nodes text
  piece :
      {tokens : List Token} {nodes : Nodes} {text : Text} (s : Text)
      → Written tokens nodes text
      → Written (char_data s ∷ tokens) nodes (s ++ text)
  element :
      {inner tokens : List Token} {children nodes : Nodes} {text behind : Text}
      (name closing : XmlName) (attrs : List XmlAttr)
      → Written inner children text
      → Written tokens nodes behind
      → Written
          (start_element name attrs ∷ inner ++ end_element closing ∷ tokens)
          (child (node name attrs children text) nodes)
          behind

-- The tokens before and after the root: comments, declarations and text.
pub data Outside : List Token → Type 0 where
  nothing : Outside []
  comment : {tokens : List Token} → Outside tokens → Outside (other_token ∷ tokens)
  blank : {tokens : List Token} (s : Text) → Outside tokens → Outside (char_data s ∷ tokens)

append : Nodes → Nodes → Nodes
append no_nodes ns = ns
append (child m rest) ns = child m (append rest ns)

append-nil : (ns : Nodes) → append ns no_nodes ≡ ns
unfolding append
append-nil no_nodes = refl
append-nil (child m rest) = ap (child m) (append-nil rest)

append-add_node : (ms ns : Nodes) (n : Node) → append (add_node ms n) ns ≡ append ms (child n ns)
unfolding append add_node
append-add_node no_nodes ns n = refl
append-add_node (child m rest) ns n = ap (child m) (append-add_node rest ns n)

loop-Written :
    (tokens : List Token) (nodes : Nodes) (text : Text) (rest : List Token) (ending : Ending)
    (name : XmlName) (attrs : List XmlAttr) (children : Nodes) (s : Text) (stack : List Node)
    (root : Option Node)
    → Written tokens nodes text
    → document_loop (tokens ++ rest) ending (node name attrs children s ∷ stack) root
      ≡ document_loop rest ending (node name attrs (append children nodes) (s ++ text) ∷ stack) root
unfolding document_loop on_start on_end on_text attach add_text append
loop-Written _ _ _ rest ending name attrs children s stack root nothing =
    rw (append-nil children, list_append_nil s) refl
loop-Written _ nodes text rest ending name attrs children s stack root
      (comment {tokens = tokens} w) =
    loop-Written tokens nodes text rest ending name attrs children s stack root w
loop-Written _ nodes _ rest ending name attrs children s stack root
      (piece {tokens = tokens} {text = text} p w) =
    let h = loop-Written tokens nodes text rest ending name attrs children (s ++ p) stack root w in
    rw (list_append_assoc s p text) at h
loop-Written _ _ _ rest ending name attrs children s stack root
      (element {inner = inner} {tokens = tokens} {children = cs} {nodes = nodes} {text = text}
        {behind = behind} n closing as' w v) =
    rw
      (
        list_append_assoc inner (end_element closing ∷ tokens) rest,
        loop-Written inner cs text (end_element closing ∷ tokens ++ rest) ending n as' no_nodes []
            (node name attrs children s ∷ stack) root w,
        sym (append-add_node children nodes (node n as' cs text)),
      )
      (loop-Written tokens nodes behind rest ending name attrs
        (add_node children (node n as' cs text)) s stack root v)

loop-Outside :
    (tokens rest : List Token) (ending : Ending) (root : Option Node)
    → Outside tokens
    → document_loop (tokens ++ rest) ending [] root ≡ document_loop rest ending [] root
unfolding document_loop on_text
loop-Outside _ rest ending root nothing = refl
loop-Outside _ rest ending root (comment {tokens = tokens} o) =
    loop-Outside tokens rest ending root o
loop-Outside _ rest ending root (blank {tokens = tokens} s o) =
    loop-Outside tokens rest ending root o

-- A document that writes a tree, its elements nested to any depth, their text in any pieces, with
-- comments anywhere and text around the root: parseDocument returns this tree.
pub parse_document-Written :
    (before inner after : List Token) (name closing : XmlName) (attrs : List XmlAttr)
    (children : Nodes) (text : Text)
    → Outside before
    → Written inner children text
    → Outside after
    → parse_document
        (before ++ (start_element name attrs ∷ inner ++ end_element closing ∷ after))
        end_of_input
      ≡ document (node name attrs children text)
unfolding parse_document document_loop on_start on_end on_ending close_all append
parse_document-Written before inner after name closing attrs children text b w a =
    let e = loop-Outside after [] end_of_input (some (node name attrs children text)) a in
    rw
      (
        parse_document,
        loop-Outside before (start_element name attrs ∷ inner ++ end_element closing ∷ after)
            end_of_input none b,
        loop-Written inner children text (end_element closing ∷ after) end_of_input name attrs
            no_nodes [] [] none w,
      )
      (rw (list_append_nil after) at e)

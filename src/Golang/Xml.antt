-- ===== src/Golang/Xml.antt =====
-- The tokens that `xml.Decoder.Token` returns, and `xml.Encoder` writes. A decoder is the list of
-- the tokens that are still to come; at its end every call returns an error (end of input, or a
-- syntax error behind the last token).
use Prim.Native.String.{String}
use ieee_2030_5_core_go.Prelude.{List, Text}

pub record XmlName : Type 0 where
  pub space : String
  pub local : String

pub record XmlAttr : Type 0 where
  pub name : XmlName
  pub value : Text

pub data Token : Type 0 where
  start_element : XmlName → List XmlAttr → Token
  end_element : XmlName → Token
  char_data : Text → Token
  other_token : Token

abbrev pub Decoder : Type 0
Decoder = List Token

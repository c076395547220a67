-- ===== src/Lib.antt =====
-- The core of ieee-2030_5-core-go, a library for IEEE 2030.5 (SEP2) clients and servers: the wire
-- encodings of values, device identifiers, certificates and the trust in peers, the receiver of
-- notifications, and the gate that checks marshalled documents against sep.xsd.
--
-- The parts, and the files that model them. Paths are those of the repository.
-- pkg/sep2/hexbinary.go: Sep2.HexBinary. A value of HexBinaryN is a number below 2 ^ N, a text is
--   a list of characters. One definition `unmarshal_xml` stands for the four copies of the method,
--   with the width as an argument; likewise the other methods.
-- pkg/sep2/der_mode_types.go: Sep2.Content has `decodeChildren`, `simpleText`, `parseUint` and
--   `requireJSON`, on the list of tokens that the XML decoder still has; Sep2.DerModes has FixedVar
--   and FreqDroopType on top of them, and of the bounded integers.
-- pkg/sep2/power.go, event.go and power_status.go: Sep2.Bounded, for PerCent, SignedPerCent,
--   OneHourRange and the range guards of RealEnergy and SignedRealEnergy. int16 and uint16 are
--   integers; the conversions wrap.
-- pkg/sep2tls/identity.go: Tls.Identity (Fingerprint, LFDI, SFDI, SFDIFromLFDI, ValidateSFDI,
--   FormatSFDI). SHA-256 is a parameter.
-- pkg/sep2cert/oids.go: Cert.Oid (ParseOID) and Cert.San (the two readers of hardware module
--   names, HasPolicyOID, DeviceType.OID).
-- pkg/sep2cert/validate.go: Cert.Ca (ValidateCA, ParseCAPair); pkg/sep2cert/pem.go: Cert.Pem (the
--   PEM parsers that ParseCAPair takes, CertificateDER, LoadCA).
-- pkg/sep2tls/verify.go: Tls.Verify. It uses the strict reader of Cert.San.
-- pkg/sep2tls/ccmserver.go: Tls.Listener has the listener that WrapCCMListenerWithTimeout returns;
--   what its goroutines share is a record, `apply` takes one step of acceptLoop, handshake, Accept or
--   Close, and an interleaving is a list of steps. Tls.Server has the configurations of ccmserver.go
--   and ccmclient.go, which put the verification of Tls.Verify over the roots of Tls.Roots.
--   Versions, suites and curves are their uint16 numbers. Tls.Middleware has SetupCCMServer and
--   CCMIdentityMiddleware.
-- pkg/sep2tls/client_cas.go: Tls.Roots (LoadClientCAs).
-- pkg/sep2/encoding/namespace.go: Sep2.Namespace (DetectNamespace and what it calls) and
--   Sep2.Namespace.Buffered (nsBufferedWriter, RewriteNamespace, NamespaceMiddleware); a handler is
--   the list of its calls on a ResponseWriter.
-- pkg/sep2client/notify/receiver.go: Notify.Lifecycle (Start, Addr, Stop: each is one step on the
--   fields that the mutex guards, and any interleaving of calls is a sequence of steps) and
--   Notify.Handler (the handler of POST /notify).
-- internal/xsdgate/lexical.go and schema.go: Gate.Lexical (simple types and the texts of values),
--   Gate.Xsd and Gate.Convert (the parsed XSD, and the types made of it) and Gate.Schema (complex
--   types, chains of extensions, effective views). Gate.Model is the Schema, and Gate.Parse is
--   ParseSchema. Gate.Table has the maps and the sets of seen names.
-- internal/xsdgate/validate.go: Gate.Document (the tree, parseDocument), Gate.Validate (problems,
--   checkAttributes) and Gate.Validate.Tree (checkChildren, validateNode, Validate, ValidateElement).
--   The maps of views, which a Schema fills as it is asked, go from call to call. Where Go ranges
--   over a map in any order, the model takes the order of insertion.
-- Prelude has the shared notation, tests and lists; Golang models what the code uses of Go's
-- strings, bytes, strconv, fmt, encoding/hex, math/bits and the tokens of encoding/xml.
--
-- Errors are values, told apart by kind and by the data that decides later steps; the texts of
-- messages are not modelled. Code outside the repository is a parameter: SHA-256, encoding/json,
-- encoding/asn1, encoding/pem, crypto/x509, files, the clock, mime, the XML binding of the XSD, what
-- a wrapped net.Listener and a TLS handshake answer, and the network. Where a theorem
-- leans on one of them, its hypothesis says what.
--
-- Fuel. `decode_children` runs on one more than the number of tokens, and each round takes one.
-- `digits_onto` runs 64 rounds, enough for a uint64 in any base. `strict_loop` and `walk_loop` run
-- on the number of bytes, of which each element takes at least one. `resolve_loop` and
-- `chain_loop` run on one more than the number of types, and each round but the last sees a new
-- one. A loop that ran out would answer `stuck` (or `none`). `line_loop` runs on the number of media
-- ranges that the source still counts, `max_media_ranges` at first. Trees are walked by recursion on
-- them.
--
-- Not modelled: the TLS stack in pkg/sep2tls/gotls (a copy of Go's crypto/tls) and the CCM mode in
-- pkg/sep2tls/ccm (a copy of pion's), which are not this repository's logic; the structs of
-- resources in pkg/sep2, which are declarations with tags; the calls of encoding/xml in the rest
-- of pkg/sep2/encoding; the generation of certificates; the reflection on Go types and the texts
-- of problems in internal/xsdgate; DERCurveLink and the JSON form of FreqDroopType.
pub mod Prelude
pub mod Golang
pub mod Sep2
pub mod Tls
pub mod Notify
pub mod Cert
pub mod Gate
pub mod Tests

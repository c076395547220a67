-- ===== src/Gate/Validate/Tree/Conforms.antt =====
-- Conformance of an element to a type, for `validateNode` of internal/xsdgate/validate.go.
use Prim.Native.String.{String}
use mathlib.Core.List.{Memᴰ}
use ieee_2030_5_core_go.Prelude.{
  Bool, true, false, List, [], ◌∷◌, none, some, map, All, ◌≡◌, ◌↔◌, ◌⊎◌, sym,
}
use ieee_2030_5_core_go.Gate.Table.{distinct}
use ieee_2030_5_core_go.Gate.Lexical.{fine, check_lexical}
use ieee_2030_5_core_go.Gate.Schema as Types
use ieee_2030_5_core_go.Gate.Schema.{
  Element, Attribute, ComplexType, ChainResult, ok, unknown_type, inheritance_cycle, view_of,
  effective_elements, effective_attributes,
}
use ieee_2030_5_core_go.Gate.Schema.Cache.{CacheSound, effective-CacheSound}
use ieee_2030_5_core_go.Gate.Model.{Schema, complex_type}
use ieee_2030_5_core_go.Gate.Document.{Node, Nodes, node, no_nodes, child, name_of}
use ieee_2030_5_core_go.Gate.Validate.{Views, Outcome}
use ieee_2030_5_core_go.Gate.Validate.Attributes.{AttributesOk}
use ieee_2030_5_core_go.Gate.Validate.Order.{InSequence}
use ieee_2030_5_core_go.Gate.Validate.Tree.{with_elements, with_attributes}

abbrev pub locals : Nodes → List String
locals no_nodes = []
locals (child c rest) = (name_of c).local ∷ locals rest

abbrev pub ElementsAre : Schema → String → List Element → Type 0
ElementsAre s type_name elems = view_of (λ ct. ct.own_elements) s.complex_types type_name ≡ ok elems

abbrev pub AttributesAre : Schema → String → List Attribute → Type 0
AttributesAre s type_name attrs =
    view_of (λ ct. ct.own_attributes) s.complex_types type_name ≡ ok attrs

-- An element of a simple type has a value of the type and no children. One of a complex type has the
-- attributes of the effective view, for simple content a value of the base, and children that stand
-- in the declared sequence, each of which conforms to the type of its particle.
unfoldable mutual
  pub Conforms : Schema → String → Bool → Node → Type 0
  Conforms s type_name root (node name attrs children text) =
      ((complex_type s type_name ≡ none)
        × ((check_lexical s.simple_types type_name text ≡ fine) × (children ≡ no_nodes)))
      ⊎ ((ct : ComplexType) × (complex_type s type_name ≡ some ct)
          × ((elems : List Element) × ElementsAre s type_name elems
              × ((declared : List Attribute) × AttributesAre s type_name declared
                  × (AttributesOk s declared elems root attrs
                      × (ct.simple_content ≡ true
                          → check_lexical s.simple_types ct.base text ≡ fine)
                      × InSequence 0 elems (locals children)
                      × ChildrenConform s elems children))))

  pub ChildrenConform : Schema → List Element → Nodes → Type 0
  ChildrenConform s elems no_nodes = Unit
  ChildrenConform s elems (child c rest) =
      ((e : Element) × Memᴰ e elems × (e.name ≡ (name_of c).local) × Conforms s e.type false c)
      × ChildrenConform s elems rest

abbrev DistinctNames : {A : Type 0} → (A → String) → ChainResult (List A) → Type 0
DistinctNames name (ok items) = distinct (map name items) ≡ true
DistinctNames name (unknown_type n) = Unit
DistinctNames name (inheritance_cycle n) = Unit
DistinctNames name Types.stuck = Unit

-- No view of a type declares a name twice.
abbrev pub WellNamed : Schema → Type 0
WellNamed s =
    All
      (λ entry.
        DistinctNames (λ e. e.name) (view_of (λ ct. ct.own_elements) s.complex_types entry.0)
        × DistinctNames (λ a. a.name) (view_of (λ ct. ct.own_attributes) s.complex_types entry.0))
      s.complex_types

abbrev pub ViewsSound : Schema → Views → Type 0
ViewsSound s v =
    CacheSound (λ ct. ct.own_elements) s.complex_types v.elements
    × CacheSound (λ ct. ct.own_attributes) s.complex_types v.attributes

-- A property of an outcome: sound maps, and no problems exactly if `P`.
abbrev pub Decides : Schema → Outcome → Type 0 → Type 0
Decides s outcome P = ViewsSound s outcome.0 × ((outcome.1 ≡ []) ↔ P)

attributes_step :
    (s : Schema) (v : Views) (type_name path : String)
    (r : List (String × List Attribute) × ChainResult (List Attribute))
    (k : Views → List Attribute → Outcome) (Body : List Attribute → Type 0)
    → r.1 ≡ view_of (λ ct. ct.own_attributes) s.complex_types type_name
    → CacheSound (λ ct. ct.own_elements) s.complex_types v.elements
    → CacheSound (λ ct. ct.own_attributes) s.complex_types r.0
    → ((v' : Views) (attrs : List Attribute)
        → ViewsSound s v'
        → AttributesAre s type_name attrs
        → Decides s (k v' attrs) (Body attrs))
    → Decides s
        (with_attributes v r path k)
        ((attrs : List Attribute) × AttributesAre s type_name attrs × Body attrs)
unfolding with_attributes
attributes_step s v type_name path (cache, ok attrs) k Body q se sa h =
    let (sound, decides) = h (record v { attributes = cache }) attrs (se, sa) (sym q) in
    (
      sound,
      (
        λ e. (attrs, sym q, decides.0 e),
        λ (as', are, body). let same : attrs ≡ as' = cc (q, are) in decides.1 (rw same body),
      ),
    )
attributes_step s v type_name path (cache, unknown_type n) k Body q se sa h =
    ((se, sa), (λ e. absurd (cc e), λ (as', are, body). absurd (cc (q, are))))
attributes_step s v type_name path (cache, inheritance_cycle n) k Body q se sa h =
    ((se, sa), (λ e. absurd (cc e), λ (as', are, body). absurd (cc (q, are))))
attributes_step s v type_name path (cache, Types.stuck) k Body q se sa h =
    ((se, sa), (λ e. absurd (cc e), λ (as', are, body). absurd (cc (q, are))))

elements_step :
    (s : Schema) (v : Views) (type_name path : String)
    (r : List (String × List Element) × ChainResult (List Element))
    (k : Views → List Element → Outcome) (Body : List Element → Type 0)
    → r.1 ≡ view_of (λ ct. ct.own_elements) s.complex_types type_name
    → CacheSound (λ ct. ct.own_elements) s.complex_types r.0
    → CacheSound (λ ct. ct.own_attributes) s.complex_types v.attributes
    → ((v' : Views) (elems : List Element)
        → ViewsSound s v'
        → ElementsAre s type_name elems
        → Decides s (k v' elems) (Body elems))
    → Decides s
        (with_elements v r path k)
        ((elems : List Element) × ElementsAre s type_name elems × Body elems)
unfolding with_elements
elements_step s v type_name path (cache, ok elems) k Body q se sa h =
    let (sound, decides) = h (record v { elements = cache }) elems (se, sa) (sym q) in
    (
      sound,
      (
        λ e. (elems, sym q, decides.0 e),
        λ (es, are, body). let same : elems ≡ es = cc (q, are) in decides.1 (rw same body),
      ),
    )
elements_step s v type_name path (cache, unknown_type n) k Body q se sa h =
    ((se, sa), (λ e. absurd (cc e), λ (es, are, body). absurd (cc (q, are))))
elements_step s v type_name path (cache, inheritance_cycle n) k Body q se sa h =
    ((se, sa), (λ e. absurd (cc e), λ (es, are, body). absurd (cc (q, are))))
elements_step s v type_name path (cache, Types.stuck) k Body q se sa h =
    ((se, sa), (λ e. absurd (cc e), λ (es, are, body). absurd (cc (q, are))))

-- Both views of a type, from sound maps: the rest decides what it decides for these views.
pub views_step :
    (s : Schema) (v : Views) (type_name path : String)
    (k : Views → List Element → List Attribute → Outcome)
    (Body : List Element → List Attribute → Type 0)
    → ViewsSound s v
    → ((v' : Views) (elems : List Element) (attrs : List Attribute)
        → ViewsSound s v'
        → ElementsAre s type_name elems
        → AttributesAre s type_name attrs
        → Decides s (k v' elems attrs) (Body elems attrs))
    → Decides s
        (with_elements v (effective_elements s.complex_types v.elements type_name) path λ v₁ es.
          with_attributes v₁
            (effective_attributes s.complex_types v₁.attributes type_name)
            path
            (λ v₂ as'. k v₂ es as'))
        ((elems : List Element) × ElementsAre s type_name elems
          × ((attrs : List Attribute) × AttributesAre s type_name attrs × Body elems attrs))
views_step s v type_name path k Body (se, sa) h =
    let own = effective-CacheSound s.complex_types v.elements v.attributes type_name se sa in
    elements_step s v type_name path (effective_elements s.complex_types v.elements type_name) _ _
      own.0 own.1 sa
      λ v₁ es (se₁, sa₁) are_e.
        let own₁ =
          effective-CacheSound s.complex_types v₁.elements v₁.attributes type_name se₁ sa₁ in
        attributes_step s v₁ type_name path
          (effective_attributes s.complex_types v₁.attributes type_name) (λ v₂ as'. k v₂ es as')
          (Body es) own₁.2 se₁ own₁.3 λ v₂ as' sound are_a. h v₂ es as' sound are_e are_a

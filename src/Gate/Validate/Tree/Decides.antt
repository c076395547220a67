-- ===== src/Gate/Validate/Tree/Decides.antt =====
-- Lemmas on `validateNode` and `Validate`, and conformance.
use Prim.Native.String.{String}
use ieee_2030_5_core_go.Prelude.{
  ℕ, Bool, true, false, List, [], ◌++◌, if◌then◌else◌, ◌≡◌, sym, ap, ◌∙◌,
}
use ieee_2030_5_core_go.Prelude.Int.{ℤ, pos, negsuc}
use ieee_2030_5_core_go.Gate.Table.{lookup, distinct}
use ieee_2030_5_core_go.Gate.Table.Put.Keyed.{lookup-fill-keyed}
use ieee_2030_5_core_go.Gate.Lexical.{check_lexical}
use ieee_2030_5_core_go.Gate.Schema.{
  Element, Attribute, ComplexType, effective_elements, effective_attributes,
}
use ieee_2030_5_core_go.Gate.Model.{Schema, complex_type}
use ieee_2030_5_core_go.Gate.Document.{Node, Nodes, node, no_nodes, child, name_of}
use ieee_2030_5_core_go.Gate.Validate.{
  Problem, Views, Outcome, child_path, lexical_problem, child_problems, elem_by_name, elem_index,
  attr_by_name, check_attributes,
}
use ieee_2030_5_core_go.Gate.Validate.Order.{names}
use ieee_2030_5_core_go.Gate.Validate.Tree.{
  count_of, count_up, order_problem, next_last, undeclared_child, child_step, by_type,
  with_elements, with_attributes, prepend, tables_of, validate_node, check_children,
}
use ieee_2030_5_core_go.Gate.Validate.Tree.Counting.{counts_after}
use ieee_2030_5_core_go.Gate.Validate.Tree.Conforms.{
  Conforms, WellNamed, ViewsSound, Decides, views_step,
}
use ieee_2030_5_core_go.Gate.Validate.Tree.Sound.{
  ChildrenOk, child_round, undeclared_step, declared_step, declared-index, lookup-elem_index,
}
use ieee_2030_5_core_go.Gate.Validate.Tree.Steps.{
  elements-distinct, attributes-distinct, type_step, simple_step, complex_step,
}

mutual
  unfolding validate_node check_children child_step by_type tables_of Conforms elem_by_name count_of
      counts_after

  pub node_decides :
      (s : Schema) (v : Views) (n : Node) (type_name path : String) (root : Bool)
      → WellNamed s
      → ViewsSound s v
      → Decides s (validate_node s v n type_name path root) (Conforms s type_name root n)
  node_decides s v (node name attrs children text) type_name path root w sound =
      let value = lexical_problem (check_lexical s.simple_types type_name text) path in
      let content : ComplexType → List Problem = λ ct.
        if ct.simple_content
        then lexical_problem (check_lexical s.simple_types ct.base text) path
        else [] in
      let checks : ComplexType → Views → List Element → List Attribute → Outcome = λ ct v₂ es as'.
        prepend (check_attributes s (attr_by_name as') (elem_by_name es) root path attrs) (
          prepend (content ct)
            (check_children s v₂ (tables_of es as') path children (negsuc 0) [])) in
      let complex : ComplexType → Outcome = λ ct.
        with_elements v (effective_elements s.complex_types v.elements type_name) path λ v₁ es.
          with_attributes v₁ (effective_attributes s.complex_types v₁.attributes type_name) path
            λ v₂ as'. checks ct v₂ es as' in
      type_step s (complex_type s type_name) (v, value ++ child_problems children path) complex _ _
        (simple_step s v (check_lexical s.simple_types type_name text) children path sound)
        λ ct q. views_step s v type_name path (checks ct) _ sound λ v' es as' sound' are_e are_a.
          let de = elements-distinct s type_name ct es w q are_e in
          let da = attributes-distinct s type_name ct as' w q are_a in
          complex_step s es as' root path attrs ct.simple_content
            (check_lexical s.simple_types ct.base text) children
            (check_children s v' (tables_of es as') path children (negsuc 0) []) de da
            (children_decide s v' es as' path children (negsuc 0) [] w de sound')

  children_decide :
      (s : Schema) (v : Views) (elems : List Element) (attrs : List Attribute) (path : String)
      (children : Nodes) (last : ℤ) (counts : List (String × ℕ))
      → WellNamed s
      → distinct (names elems) ≡ true
      → ViewsSound s v
      → Decides s
          (check_children s v (tables_of elems attrs) path children last counts)
          (ChildrenOk s elems path children last counts)
  children_decide s v elems attrs path no_nodes last counts w d sound =
      (sound, (λ e. (tt, tt, e), λ (a, b, e). e))
  children_decide s v elems attrs path (child c rest) last counts w d sound =
      let local = (name_of c).local in
      let here = child_path path local in
      let idx = pos (count_of (lookup local (elem_index elems))) in
      let table = lookup-fill-keyed local (λ x. x.name) elems d in
      let after : Element → Outcome = λ decl.
        check_children s (validate_node s v c decl.type here false).0 (tables_of elems attrs) path
          rest (next_last idx last) (count_up local counts) in
      child_round s (lookup local (elem_by_name elems))
        (undeclared_child (lookup local (attr_by_name attrs)) here)
        (check_children s v (tables_of elems attrs) path rest last counts)
        (λ decl.
          prepend (order_problem idx last here)
            (prepend (validate_node s v c decl.type here false).1 (after decl)))
        (ChildrenOk s elems path (child c rest) last counts)
        (λ gone.
          let ih = children_decide s v elems attrs path rest last counts w d sound in
          undeclared_step s elems (lookup local (attr_by_name attrs)) path here c rest last counts
            (check_children s v (tables_of elems attrs) path rest last counts) ih.0 d
            (sym table ∙ gone))
        λ decl found.
          let there = sym table ∙ found in
          let (i, index) = declared-index local 0 elems there in
          let own = node_decides s v c decl.type here false w sound in
          let behind =
            children_decide s (validate_node s v c decl.type here false).0 elems attrs path rest
              (next_last idx last) (count_up local counts) w d own.0 in
          let at_i : idx ≡ pos i =
            ap (λ o. pos (count_of o)) (lookup-elem_index local elems d ∙ index) in
          declared_step s elems path here c rest last counts decl idx i
            (validate_node s v c decl.type here false) (after decl) d there index at_i own behind

-- ===== src/Browser/ElementRefRegistry/Tests.antt =====
-- A page with two elements in one tab, after a snapshot of the same tab and one of another.
use reins_core.Prelude.{ℕ, ◌<◌, ◌≡◌, ◌≢◌, refl, true, false, none, some, [], ◌∷◌, map, All, arith}
use reins_core.Prelude.Text.{Text, units}
use reins_core.Prelude.Eq.{text_eq_iff}
use reins_core.Prelude.JsMap.{get, set, delete}
use reins_core.Prelude.Decimal.{show}
use reins_core.Browser.ElementRefRegistry.{
  AccessibilityNode, ElementRefRegistry, new, ref_text, assign_refs, lookup_ref, lookup_ref_info,
  clear_tab,
}
use reins_core.Browser.ElementRefRegistry.References.{LeadsTo, assign_refs_lem}

abbrev node : ℕ → AccessibilityNode
node id = record {
  backend_dom_node_id = id;
  role = units "button";
  name = none;
  value = none;
  depth = 1;
  focused = none;
  disabled = none;
}

abbrev tab : Text
tab = units "t1"

abbrev other_tab : Text
other_tab = units "t2"

abbrev before : ElementRefRegistry
before = (assign_refs other_tab (node 30 ∷ []) (assign_refs tab (node 10 ∷ node 20 ∷ []) new).1).1

abbrev after : ElementRefRegistry
after = (assign_refs tab (node 40 ∷ node 50 ∷ []) before).1

fresh :
    (lookup_ref tab (units "e4") after ≡ some 50)
    × (lookup_ref tab (units "e1") after ≡ none)
    × (lookup_ref other_tab (units "e2") after ≡ some 30)
    × (lookup_ref other_tab (units "e2") (clear_tab other_tab after) ≡ none)
unfolding assign_refs lookup_ref clear_tab show get set delete
fresh = (refl, refl, refl, refl)

tabs_differ : tab ≢ other_tab
tabs_differ e = let same : false ≡ true = (text_eq_iff tab other_tab).1 e in cc

one_is_old : 1 < before.next_ref_id
unfolding assign_refs
one_is_old = omega arith

assign_refs_lem_example :
    All
      (LeadsTo tab (node 40 ∷ node 50 ∷ []) before)
      (assign_refs tab (node 40 ∷ node 50 ∷ []) before).0
    × (map (λ element. element.backend_node_id) (assign_refs tab (node 40 ∷ node 50 ∷ []) before).0
        ≡ map (λ node. node.backend_dom_node_id) (node 40 ∷ node 50 ∷ []))
    × (lookup_ref tab (ref_text 1) after ≡ none)
    × (lookup_ref_info tab (ref_text 1) after ≡ none)
    × (lookup_ref other_tab (units "e2") after ≡ lookup_ref other_tab (units "e2") before)
    × (lookup_ref_info other_tab (units "e2") after ≡ lookup_ref_info other_tab (units "e2") before)
assign_refs_lem_example =
    assign_refs_lem tab (node 40 ∷ node 50 ∷ []) before other_tab (units "e2") 1 tabs_differ
      one_is_old

-- ===== src/Browser/ElementRefRegistry.antt =====
-- src/browser/element-ref-registry.ts: `ElementRefRegistry`.
pub mod References
mod Tests
use reins_core.Prelude.{ℕ, suc, Bool, Option, none, some, List, [], ◌∷◌}
use reins_core.Prelude.Text.{Text, units}
use reins_core.Prelude.Eq.{text_is_eq}
use reins_core.Prelude.JsMap.{JsMap, get, set, delete}
use reins_core.Prelude.Decimal.{show}

-- `AccessibilityNode` of src/browser/types.ts, as far as it is read.
pub record AccessibilityNode : Type 0 where
  pub backend_dom_node_id : ℕ
  pub role : Text
  pub name : Option Text
  pub value : Option Text
  pub depth : ℕ
  pub focused : Option Bool
  pub disabled : Option Bool

pub record ElementRef : Type 0 where
  pub ref : Text
  pub backend_node_id : ℕ
  pub role : Text
  pub name : Option Text
  pub value : Option Text
  pub depth : ℕ
  pub focused : Option Bool
  pub disabled : Option Bool

pub record ElementRefRegistry : Type 0 where
  pub next_ref_id : ℕ
  pub tab_refs : JsMap Text (JsMap Text ℕ)
  pub tab_ref_info : JsMap Text (JsMap Text ElementRef)

abbrev pub new : ElementRefRegistry
new = record { next_ref_id = 0; tab_refs = []; tab_ref_info = [] }

unfoldable pub ref_text : ℕ → Text
ref_text id = b'e' ∷ show id

abbrev pub element_ref : Text → AccessibilityNode → ElementRef
element_ref ref node = record {
  ref = ref;
  backend_node_id = node.backend_dom_node_id;
  role = node.role;
  name = node.name;
  value = node.value;
  depth = node.depth;
  focused = node.focused;
  disabled = node.disabled;
}

-- What the loop over the nodes changes.
pub record Assigned : Type 0 where
  pub next_ref_id : ℕ
  pub refs_for_tab : JsMap Text ℕ
  pub ref_info_for_tab : JsMap Text ElementRef
  pub element_refs : List ElementRef

assign_nodes : List AccessibilityNode → ℕ → JsMap Text ℕ → JsMap Text ElementRef → Assigned
unfolding ref_text
assign_nodes [] next refs info = record {
  next_ref_id = next;
  refs_for_tab = refs;
  ref_info_for_tab = info;
  element_refs = [];
}
assign_nodes (node ∷ nodes) next refs info =
    let ref = ref_text next in
    let rest =
      assign_nodes nodes (suc next) (set refs ref node.backend_dom_node_id)
        (set info ref (element_ref ref node)) in
    record rest { element_refs = element_ref ref node ∷ rest.element_refs }

unfoldable pub assign_refs :
    (tab_id : Text)
    → List AccessibilityNode
    → ElementRefRegistry
    → List ElementRef × ElementRefRegistry
unfolding assign_nodes
assign_refs tab_id nodes r =
    let assigned = assign_nodes nodes r.next_ref_id [] [] in
    (
      assigned.element_refs,
      record {
        next_ref_id = assigned.next_ref_id;
        tab_refs = set r.tab_refs tab_id assigned.refs_for_tab;
        tab_ref_info = set r.tab_ref_info tab_id assigned.ref_info_for_tab;
      },
    )

-- `map.get(tab)?.get(ref)`
abbrev get_in : {V : Type 0} → Option (JsMap Text V) → Text → Option V
get_in none ref = none
get_in (some refs) ref = get refs ref

unfoldable pub lookup_ref : (tab_id ref : Text) → ElementRefRegistry → Option ℕ
lookup_ref tab_id ref r = get_in (get r.tab_refs tab_id) ref

unfoldable pub lookup_ref_info : (tab_id ref : Text) → ElementRefRegistry → Option ElementRef
lookup_ref_info tab_id ref r = get_in (get r.tab_ref_info tab_id) ref

unfoldable pub clear_tab : (tab_id : Text) → ElementRefRegistry → ElementRefRegistry
clear_tab tab_id r = record r {
  tab_refs = delete r.tab_refs tab_id;
  tab_ref_info = delete r.tab_ref_info tab_id;
}

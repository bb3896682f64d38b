-- ===== src/Browser/ElementRefRegistry/References.antt =====
-- What the references of a snapshot lead to.
use reins_core.Prelude.{
  ℕ, suc, ◌<◌, ◌≡◌, ◌≢◌, refl, ap, ◌∙◌, false, none, some, List, [], ◌∷◌, map, arith, All, All-mono,
}
use reins_core.Prelude.Text.{Text, text_eq}
use reins_core.Prelude.Eq.{text_is_eq, text_eq_iff}
use reins_core.Prelude.JsMap.{JsMap, get, set, get-set}
use reins_core.Prelude.Decimal.{show_inj}
use reins_core.Browser.ElementRefRegistry.{
  AccessibilityNode, ElementRef, ElementRefRegistry, ref_text, element_ref, assign_nodes,
  assign_refs, get_in, lookup_ref, lookup_ref_info,
}

ref_text_inj : (m n : ℕ) → ref_text m ≡ ref_text n → m ≡ n
unfolding ref_text
ref_text_inj m n e = show_inj m n (cc)

other_ref : (m n : ℕ) → m < n → ref_text n ≢ ref_text m
other_ref m n h e = let same = ref_text_inj n m e in omega arith

module _ {V : Type 0} where
  get-set_same : (m : JsMap Text V) (k : Text) (v : V) → get (set m k v) k ≡ some v
  get-set_same m k v = let same = (text_eq_iff k k).1 refl in get-set m k k v ∙ rw same refl

  get-set_ne : (m : JsMap Text V) (k j : Text) (v : V) → k ≢ j → get (set m k v) j ≡ get m j
  get-set_ne m k j v h =
      let differ : text_eq k j ≡ false = ground (arith, text_eq_iff k j) in
      get-set m k j v ∙ rw differ refl

-- Later references do not touch what earlier ones lead to.
kept_refs :
    (nodes : List AccessibilityNode) (next m : ℕ) (refs : JsMap Text ℕ)
    (info : JsMap Text ElementRef)
    → m < next
    → (get (assign_nodes nodes next refs info).refs_for_tab (ref_text m) ≡ get refs (ref_text m))
      × (get (assign_nodes nodes next refs info).ref_info_for_tab (ref_text m)
          ≡ get info (ref_text m))
unfolding assign_nodes
kept_refs [] next m refs info h = (refl, refl)
kept_refs (node ∷ nodes) next m refs info h =
    let ref = ref_text next in
    let element = element_ref ref node in
    let refs' : JsMap Text ℕ = set refs ref node.backend_dom_node_id in
    let info' : JsMap Text ElementRef = set info ref element in
    let (a, b) = kept_refs nodes (suc next) m refs' info' (omega arith) in
    let other = other_ref m next h in
    (
      a ∙ get-set_ne refs ref (ref_text m) node.backend_dom_node_id other,
      b ∙ get-set_ne info ref (ref_text m) element other,
    )

-- What the maps say of a reference that was given.
abbrev IsFound : JsMap Text ℕ → JsMap Text ElementRef → ElementRef → Type 0
IsFound refs info element =
    (get refs element.ref ≡ some element.backend_node_id) × (get info element.ref ≡ some element)

IsFound-refs :
    (nodes : List AccessibilityNode) (next : ℕ) (refs : JsMap Text ℕ) (info : JsMap Text ElementRef)
    → All
        (IsFound
          (assign_nodes nodes next refs info).refs_for_tab
          (assign_nodes nodes next refs info).ref_info_for_tab)
        (assign_nodes nodes next refs info).element_refs
unfolding assign_nodes
IsFound-refs [] next refs info = tt
IsFound-refs (node ∷ nodes) next refs info =
    let ref = ref_text next in
    let element = element_ref ref node in
    let refs' : JsMap Text ℕ = set refs ref node.backend_dom_node_id in
    let info' : JsMap Text ElementRef = set info ref element in
    let (a, b) = kept_refs nodes (suc next) next refs' info' (omega arith) in
    (
      (a ∙ get-set_same refs ref node.backend_dom_node_id, b ∙ get-set_same info ref element),
      IsFound-refs nodes (suc next) refs' info',
    )

backend_ids :
    (nodes : List AccessibilityNode) (next : ℕ) (refs : JsMap Text ℕ) (info : JsMap Text ElementRef)
    → map (λ element. element.backend_node_id) (assign_nodes nodes next refs info).element_refs
      ≡ map (λ node. node.backend_dom_node_id) nodes
unfolding assign_nodes
backend_ids [] next refs info = refl
backend_ids (node ∷ nodes) next refs info =
    ap (λ ids. node.backend_dom_node_id ∷ ids) (backend_ids nodes (suc next) _ _)

module _ (tab_id : Text) (nodes : List AccessibilityNode) (r : ElementRefRegistry) where
  abbrev after : ElementRefRegistry
  after = (assign_refs tab_id nodes r).1

  abbrev pub LeadsTo : ElementRef → Type 0
  LeadsTo element =
      (lookup_ref tab_id element.ref after ≡ some element.backend_node_id)
      × (lookup_ref_info tab_id element.ref after ≡ some element)

  -- A new snapshot of a tab gives one reference for each node, in their order, which leads back to the
  -- node and its description; a reference given before leads nowhere in this tab any more, and
  -- what any other tab's references lead to is unchanged.
  pub assign_refs_lem :
      (other ref : Text) (old : ℕ)
      → tab_id ≢ other
      → old < r.next_ref_id
      → All LeadsTo (assign_refs tab_id nodes r).0
        × (map (λ element. element.backend_node_id) (assign_refs tab_id nodes r).0
            ≡ map (λ node. node.backend_dom_node_id) nodes)
        × (lookup_ref tab_id (ref_text old) after ≡ none)
        × (lookup_ref_info tab_id (ref_text old) after ≡ none)
        × (lookup_ref other ref after ≡ lookup_ref other ref r)
        × (lookup_ref_info other ref after ≡ lookup_ref_info other ref r)
  unfolding assign_refs lookup_ref lookup_ref_info get
  assign_refs_lem other ref old different before =
      let next = r.next_ref_id in
      let refs : JsMap Text ℕ = (assign_nodes nodes next [] []).refs_for_tab in
      let info : JsMap Text ElementRef = (assign_nodes nodes next [] []).ref_info_for_tab in
      let own_refs = get-set_same r.tab_refs tab_id refs in
      let own_info = get-set_same r.tab_ref_info tab_id info in
      let (no_ref, no_info) = kept_refs nodes next old [] [] before in
      let leads : (element : ElementRef) → IsFound refs info element → LeadsTo element =
        λ element (a, b). (
          ap (λ m. get_in m element.ref) own_refs ∙ a,
          ap (λ m. get_in m element.ref) own_info ∙ b,
        ) in
      (
        All-mono (IsFound refs info) LeadsTo leads (assign_refs tab_id nodes r).0
            (IsFound-refs nodes next [] []),
        backend_ids nodes next [] [],
        ap (λ m. get_in m (ref_text old)) own_refs ∙ no_ref,
        ap (λ m. get_in m (ref_text old)) own_info ∙ no_info,
        ap (λ m. get_in m ref) (get-set_ne r.tab_refs tab_id other refs different),
        ap (λ m. get_in m ref) (get-set_ne r.tab_ref_info tab_id other info different),
      )

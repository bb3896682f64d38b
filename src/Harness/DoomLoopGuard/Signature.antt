-- ===== src/Harness/DoomLoopGuard/Signature.antt =====
-- `toSignature` and `stableStringify`: the text of a tool call, whatever the order of object keys.
-- A scalar is any value that is no object; its text, a key's text and the order of keys are the
-- parameters, `JSON.stringify` and `String.prototype.localeCompare`.
use Prim.Native.String
use reins_core.Prelude.{
  String, ◌≡◌, refl, ap, ◌∙◌, Bool, true, false, ◌&&◌, ◌||◌, Option, some, List, [], ◌∷◌,
  if◌then◌else◌, arith, or_else, map,
}

infixl 60 ◌^^◌
abbrev ◌^^◌ : String → String → String
s ^^ t = String.◌++◌ s t

module _ (Scalar : Type 0) where
  mutual
    pub data Json : Type 0 where
      scalar : Scalar → Json
      arr : Items → Json
      obj : Fields → Json

    pub data Items : Type 0 where
      nil : Items
      cons : Json → Items → Items

    pub data Fields : Type 0 where
      end : Fields
      field : String → Json → Fields → Fields

-- `texts.join(",")`
join : List String → String
join [] = ""
join (s ∷ []) = s
join (s ∷ t ∷ ts) = s ^^ "," ^^ join (t ∷ ts)

module _ (le : String → String → Bool) where
  -- The stable sort of `Array.prototype.sort` by keys; `le a b` is `a.localeCompare(b) <= 0`.
  insert_entry : String × String → List (String × String) → List (String × String)
  insert_entry e [] = e ∷ []
  insert_entry e (x ∷ xs) = if le e.0 x.0 then e ∷ x ∷ xs else x ∷ insert_entry e xs

  sort_entries : List (String × String) → List (String × String)
  sort_entries [] = []
  sort_entries (e ∷ es) = insert_entry e (sort_entries es)

module _ (Scalar : Type 0) (json_text : Scalar → String) (json_key : String → String)
    (le : String → String → Bool) where
  -- The values are written out before the entries are sorted, since the sort reads only the keys.
  unfoldable mutual
    unfolding join sort_entries insert_entry

    pub stable_stringify : Json Scalar → String
    stable_stringify (scalar s) = json_text s
    stable_stringify (arr items) = "[" ^^ join (stringify_items items) ^^ "]"
    stable_stringify (obj fields) =
        "{"
        ^^ join (map (λ e. json_key e.0 ^^ ":" ^^ e.1) (sort_entries le (stringify_fields fields)))
        ^^ "}"

    pub stringify_items : Items Scalar → List String
    stringify_items nil = []
    stringify_items (cons v vs) = stable_stringify v ∷ stringify_items vs

    pub stringify_fields : Fields Scalar → List (String × String)
    stringify_fields end = []
    stringify_fields (field k v fs) = (k, stable_stringify v) ∷ stringify_fields fs

  -- `${name}:${stableStringify(input)}`; arguments that are left out count as `{}`.
  unfoldable pub to_signature : String × Option (Json Scalar) → String
  unfolding stable_stringify
  to_signature (name, input) = name ^^ ":" ^^ stable_stringify (or_else input (obj end))

-- Two values that differ only in the order of object keys, at any depth. Keys are told apart by the
-- comparison.
module _ (Scalar : Type 0) (le : String → String → Bool) where
  mutual
    pub data Same : Json Scalar → Json Scalar → Type 0 where
      same_scalar : {s : Scalar} → Same (scalar s) (scalar s)
      same_arr : {vs ws : Items Scalar} → SameItems vs ws → Same (arr vs) (arr ws)
      same_obj : {fs gs : Fields Scalar} → SameFields fs gs → Same (obj fs) (obj gs)

    pub data SameItems : Items Scalar → Items Scalar → Type 0 where
      same_nil : SameItems nil nil
      same_cons :
          {v w : Json Scalar} {vs ws : Items Scalar}
          → Same v w
          → SameItems vs ws
          → SameItems (cons v vs) (cons w ws)

    pub data SameFields : Fields Scalar → Fields Scalar → Type 0 where
      same_end : SameFields end end
      same_field :
          {k : String} {v w : Json Scalar} {fs gs : Fields Scalar}
          → Same v w
          → SameFields fs gs
          → SameFields (field k v fs) (field k w gs)
      swapped :
          {k j : String} {v w : Json Scalar} {fs : Fields Scalar}
          → (le k j && le j k) ≡ false
          → SameFields (field k v (field j w fs)) (field j w (field k v fs))
      both : {fs gs hs : Fields Scalar} → SameFields fs gs → SameFields gs hs → SameFields fs hs

-- What is assumed of the comparison: it orders any two keys, and it is transitive.
pub record IsOrder (le : String → String → Bool) : Type 0 where
  pub total : (a b : String) → (le a b || le b a) ≡ true
  pub trans : (a b c : String) → le a b ≡ true → le b c ≡ true → le a c ≡ true

module _ (le : String → String → Bool) (order : IsOrder le) where
  insert_entry_comm :
      (d e : String × String) (xs : List (String × String))
      → (le d.0 e.0 && le e.0 d.0) ≡ false
      → insert_entry le d (insert_entry le e xs) ≡ insert_entry le e (insert_entry le d xs)
  unfolding insert_entry
  insert_entry_comm d e [] h = ground (arith, order.total d.0 e.0)
  insert_entry_comm d e (x ∷ xs) h = ground (
    arith,
    order.total d.0 e.0,
    order.total d.0 x.0,
    order.total e.0 x.0,
    order.trans d.0 e.0 x.0,
    order.trans e.0 d.0 x.0,
    order.trans d.0 x.0 e.0,
    order.trans e.0 x.0 d.0,
    insert_entry_comm d e xs h,
  )

  module _ (Scalar : Type 0) (json_text : Scalar → String) (json_key : String → String) where
    mutual
      unfolding stable_stringify sort_entries

      stringify-Same :
          {v w : Json Scalar}
          → Same Scalar le v w
          → stable_stringify Scalar json_text json_key le v
            ≡ stable_stringify Scalar json_text json_key le w
      stringify-Same same_scalar = refl
      stringify-Same (same_arr s) = rw (stringify_items-Same s)
      stringify-Same (same_obj s) = rw (sorted-Same s)

      stringify_items-Same :
          {vs ws : Items Scalar}
          → SameItems Scalar le vs ws
          → stringify_items Scalar json_text json_key le vs
            ≡ stringify_items Scalar json_text json_key le ws
      stringify_items-Same same_nil = refl
      stringify_items-Same (same_cons s t) = cc (stringify-Same s, stringify_items-Same t)

      sorted-Same :
          {fs gs : Fields Scalar}
          → SameFields Scalar le fs gs
          → sort_entries le (stringify_fields Scalar json_text json_key le fs)
            ≡ sort_entries le (stringify_fields Scalar json_text json_key le gs)
      sorted-Same same_end = refl
      sorted-Same (same_field s t) = rw (stringify-Same s, sorted-Same t)
      sorted-Same (swapped h) = insert_entry_comm _ _ _ h
      sorted-Same (both s t) = sorted-Same s ∙ sorted-Same t

    -- Two calls of one tool whose arguments differ only in the order of object keys, at any depth,
    -- have the same signature.
    pub to_signature-Same :
        (name : String) (v w : Json Scalar)
        → Same Scalar le v w
        → to_signature Scalar json_text json_key le (name, some v)
          ≡ to_signature Scalar json_text json_key le (name, some w)
    unfolding to_signature
    to_signature-Same name v w s = ap (λ t. name ^^ ":" ^^ t) (stringify-Same s)

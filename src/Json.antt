-- ===== src/Json.antt =====
-- JSON documents as `json.load` returns them. The leaves are the values of events and payloads.
use tradejournal_mt5_cloud_w.Prelude.{String, List, [], ◌∷◌, ◌≡◌, refl, ap}
use tradejournal_mt5_cloud_w.Prelude.Dict.{Dict}
use tradejournal_mt5_cloud_w.Value.{Value}

mutual
  pub data Json : Type 0 where
    scalar : Value → Json
    array : Items → Json
    object : Fields → Json

  pub data Items : Type 0 where
    nil : Items
    cons : Json → Items → Items

  pub data Fields : Type 0 where
    end : Fields
    field : String → Json → Fields → Fields

-- A Python dict or list of documents, as the program handles it.
unfoldable pub entries : Fields → Dict Json
entries end = []
entries (field k v fs) = (k, v) ∷ entries fs

unfoldable pub elements : Items → List Json
elements nil = []
elements (cons x xs) = x ∷ elements xs

unfoldable pub fields : Dict Json → Fields
fields [] = end
fields ((k, v) ∷ d) = field k v (fields d)

unfoldable pub items : List Json → Items
items [] = nil
items (x ∷ xs) = cons x (items xs)

pub entries-fields : (d : Dict Json) → entries (fields d) ≡ d
unfolding entries fields
entries-fields [] = refl
entries-fields ((k, v) ∷ d) = ap (λ (e : Dict Json). (k, v) ∷ e) (entries-fields d)

pub elements-items : (xs : List Json) → elements (items xs) ≡ xs
unfolding elements items
elements-items [] = refl
elements-items (x ∷ xs) = ap (λ (ys : List Json). x ∷ ys) (elements-items xs)

pub fields-entries : (fs : Fields) → fields (entries fs) ≡ fs
unfolding entries fields
fields-entries end = refl
fields-entries (field k v fs) = ap (λ (gs : Fields). field k v gs) (fields-entries fs)

-- ===== src/Json.antt =====
-- The values of the crate `serde_json`. A number is held as its text, which the program never looks
-- into. An object is a map in the order of its keys.
use privacy_proxy.Base.{Bool, if◌then◌else◌}
use privacy_proxy.Text.{Bytes, equal}
use privacy_proxy.BTreeMap.{less}

mutual
  pub data Value : Type 0 where
    null : Value
    bool : Bool → Value
    number : Bytes → Value
    string : Bytes → Value
    array : Items → Value
    object : Fields → Value

  pub data Items : Type 0 where
    nil : Items
    cons : Value → Items → Items

  pub data Fields : Type 0 where
    end : Fields
    field : Bytes → Value → Fields → Fields

-- `map.insert(key, value)`
unfoldable pub insert : Bytes → Value → Fields → Fields
insert key value end = field key value end
insert key value (field k v rest) =
    if equal k key
    then field k value rest
    else if less key k
    then field key value (field k v rest)
    else field k v (insert key value rest)

-- `output.push(value)`
unfoldable pub push : Items → Value → Items
push nil value = cons value nil
push (cons v rest) value = cons v (push rest value)

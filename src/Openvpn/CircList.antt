-- ===== src/Openvpn/CircList.antt =====
-- vpn/openvpn-2.2.1/circ_list.h: the circular list, with `modulo_add` of integer.h.
mod Places
pub mod Laws
use seguridad_en_redes.Base.{
  ℕ, ◌+◌, ◌-◌, Bool, ◌&&◌, List, Option, none, some, get_elem?, set, replicate, length, min, ltb,
  leb, if◌then◌else◌,
}
use seguridad_en_redes.Openvpn.Checked.{◌>>=◌, ◌>>◌, assert}

-- `modulo_add (x, y, mod)` for `y ≥ 0`
unfoldable pub modulo_add : ℕ → ℕ → ℕ → Option ℕ
modulo_add x y modulus = do
  assert (ltb x modulus && leb y modulus)
  some (if leb modulus (x + y) then x + y - modulus else x + y)

-- `modulo_add (x, -y, mod)`
unfoldable pub modulo_sub : ℕ → ℕ → ℕ → Option ℕ
modulo_sub x y modulus = do
  assert (ltb x modulus && leb y modulus)
  some (if ltb x y then x + modulus - y else x - y)

-- `struct name`, which `CIRC_LIST` declares; `x_sizeof` is only there to free it.
pub record CircList {ℓ} (A : Type ℓ) : Type ℓ where
  pub x_head : ℕ
  pub x_size : ℕ
  pub x_cap : ℕ
  pub x_list : List A

module _ {ℓ} {A : Type ℓ} where
  -- `CIRC_LIST_ALLOC`; `z` is the item of zero bytes.
  unfoldable pub circ_list_alloc : A → ℕ → CircList A
  circ_list_alloc z size = record {
    x_head = 0;
    x_size = 0;
    x_cap = size;
    x_list = replicate size z;
  }

  -- `CIRC_LIST_RESET`
  unfoldable pub circ_list_reset : CircList A → CircList A
  circ_list_reset obj = record { x_head = 0; x_size = 0; x_cap = obj.x_cap; x_list = obj.x_list }

  -- An assignment to `x_list[i]`
  unfoldable pub put : List A → ℕ → A → Option (List A)
  put xs i item = if ltb i (length xs) then some (set xs i item) else none

  -- `CIRC_LIST_PUSH`
  unfoldable pub circ_list_push : CircList A → A → Option (CircList A)
  circ_list_push obj item = do
    head ← modulo_sub obj.x_head 1 obj.x_cap
    list ← put obj.x_list head item
    some (record {
      x_head = head;
      x_size = min (obj.x_size + 1) obj.x_cap;
      x_cap = obj.x_cap;
      x_list = list;
    })

  -- `CIRC_LIST_INDEX`, with `index_verify`
  unfoldable pub circ_list_index : CircList A → ℕ → Option ℕ
  circ_list_index obj index = do
    assert (ltb index obj.x_size)
    modulo_add obj.x_head index obj.x_cap

  -- `CIRC_LIST_ITEM` as a value
  unfoldable pub circ_list_item : CircList A → ℕ → Option A
  circ_list_item obj index = do i ← circ_list_index obj index; get_elem? obj.x_list i

  -- `CIRC_LIST_ITEM` assigned to
  unfoldable pub circ_list_set : CircList A → ℕ → A → Option (CircList A)
  circ_list_set obj index item = do
    i ← circ_list_index obj index
    list ← put obj.x_list i item
    some (record { x_head = obj.x_head; x_size = obj.x_size; x_cap = obj.x_cap; x_list = list })
